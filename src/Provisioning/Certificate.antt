-- ===== src/Provisioning/Certificate.antt =====
-- The reassembly of the certificate in src/aws/provisioning.c.
use mathlib.Core.Path.{subst}
use cything.Prelude.{
  ==_refl, ◌-◌, ◌&&◌, ◌||◌, not, ◌==ℤ◌, ℕ, suc, ◌+◌, ◌≡◌, ◌<◌, refl, ap, sym, ◌∙◌, arith, false,
  some, List, [], ◌∷◌, ◌++◌, length, leb, ltb, ◌==◌, pos, inl, inr, ◌⊎◌, length-append,
  append_assoc, append-nil,
}
use cything.Prelude.Bytes.{Bytes}
use cything.Provisioning.{
  Prov, ProvEnv, handle_devid, take_chunk, decode_cert, is_receiving, next_seq, hs_receiving_cert,
  cert_b64_buf_len, cert_pem_max,
}

-- The chunks one behind the other.
abbrev pub joined : List Bytes → Bytes
joined [] = []
joined (c ∷ cs) = c ++ joined cs

-- CERT lines with these chunks, numbered from `seq`, of `total`.
unfoldable pub take_chunks : ProvEnv → ℕ → ℕ → List Bytes → Prov → Prov
take_chunks env seq total [] p = p
take_chunks env seq total (c ∷ cs) p =
    take_chunks env (suc seq) total cs (take_chunk env (pos seq) (pos total) c p).0

-- The handshake awaits chunk `seq` and has this text.
record Awaits (seq total : ℕ) (text : Bytes) (p : Prov) : Type 0 where
  receiving : p.state ≡ hs_receiving_cert
  next : p.cert_next_seq ≡ pos seq
  known : (p.cert_total_chunks ≡ pos 0) ⊎ (p.cert_total_chunks ≡ pos total)
  collected : p.cert_b64 ≡ text

in_order :
    (seq total : ℕ) (text : Bytes) (p : Prov)
    → Awaits seq total text p
    → (not (is_receiving p.state)
        || (not (pos seq ==ℤ p.cert_next_seq)
            || (not (p.cert_total_chunks ==ℤ pos 0) && not (pos total ==ℤ p.cert_total_chunks))))
      ≡ false
unfolding is_receiving
in_order seq total text p a = ground (arith, a.receiving, a.next, a.known)

room :
    (seq total : ℕ) (c text : Bytes) (p : Prov)
    → Awaits seq total text p
    → length text + length c < cert_b64_buf_len
    → leb cert_b64_buf_len (length p.cert_b64 + length c) ≡ false
room seq total c text p a l = ground (arith, l, ap length a.collected)

inner_chunk :
    (env : ProvEnv) (seq total : ℕ) (c text : Bytes) (p : Prov)
    → Awaits seq total text p
    → seq < total
    → length text + length c < cert_b64_buf_len
    → Awaits (suc seq) total (text ++ c) (take_chunk env (pos seq) (pos total) c p).0
unfolding take_chunk is_receiving next_seq
inner_chunk env seq total c text p a h l =
    rw (take_chunk, in_order seq total text p a, room seq total c text p a l, more)
      (record {
        receiving = a.receiving;
        next = ap next_seq a.next;
        known = inr refl;
        collected = ap (λ t. t ++ c) a.collected;
      })
  where
    more : (seq == total) ≡ false
    more = ground (arith, h)

decode_cert_good :
    (env : ProvEnv) (pem : Bytes) (p : Prov)
    → env.base64_decode p.cert_b64 ≡ some pem
    → length pem < cert_pem_max
    → (decode_cert env p).0.identity.cert_pem ≡ pem
unfolding decode_cert
decode_cert_good env pem p d m = rw (decode_cert, d, fits) refl
  where
    fits : ltb (cert_pem_max - 1) (length pem) ≡ false
    fits = ground (arith, m)

last_chunk :
    (env : ProvEnv) (total : ℕ) (c text pem : Bytes) (p : Prov)
    → Awaits total total text p
    → length text + length c < cert_b64_buf_len
    → env.base64_decode (text ++ c) ≡ some pem
    → length pem < cert_pem_max
    → (take_chunk env (pos total) (pos total) c p).0.identity.cert_pem ≡ pem
unfolding take_chunk
last_chunk env total c text pem p a l d m =
    rw (take_chunk, in_order total total text p a, room total total c text p a l, ==_refl total)
      (decode_cert_good env pem _ (ap (λ t. env.base64_decode (t ++ c)) a.collected ∙ d) m)

take_chunks_from :
    (env : ProvEnv) (seq total : ℕ) (c : Bytes) (cs : List Bytes) (text pem : Bytes) (p : Prov)
    → Awaits seq total text p
    → seq + length cs ≡ total
    → length text + length (joined (c ∷ cs)) < cert_b64_buf_len
    → env.base64_decode (text ++ joined (c ∷ cs)) ≡ some pem
    → length pem < cert_pem_max
    → (take_chunks env seq total (c ∷ cs) p).identity.cert_pem ≡ pem
unfolding take_chunks
take_chunks_from env seq total c [] text pem p a n l d m =
    let last : seq ≡ total = omega (arith, n) in
    ap (λ t. (take_chunk env (pos t) (pos total) c p).0.identity.cert_pem) last
    ∙ last_chunk env total c text pem p (subst (λ t. Awaits t total text p) last a)
        (omega (arith, l, length-append c []))
        (ap (λ t. env.base64_decode (text ++ t)) (sym (append-nil c)) ∙ d) m
take_chunks_from env seq total c (e ∷ cs) text pem p a n l d m =
    take_chunks_from env (suc seq) total e cs (text ++ c) pem
      (take_chunk env (pos seq) (pos total) c p).0
      (inner_chunk env seq total c text p a (omega (arith, n))
        (omega (arith, l, length-append c (joined (e ∷ cs)))))
      (omega (arith, n)) (omega (arith, l, length-append c (joined (e ∷ cs)), length-append text c))
      (ap env.base64_decode (append_assoc text c (joined (e ∷ cs))) ∙ d) m

-- After DEVID, a certificate whose base64 text comes in any number of chunks, one for each CERT line
-- and numbered from 1 to their count, is put together and decoded, where the text is shorter than the
-- buffer and the decoded certificate than its own.
pub take_chunks_lem :
    (env : ProvEnv) (id c : Bytes) (cs : List Bytes) (pem : Bytes) (p : Prov)
    → length (joined (c ∷ cs)) < cert_b64_buf_len
    → env.base64_decode (joined (c ∷ cs)) ≡ some pem
    → length pem < cert_pem_max
    → (take_chunks env 1 (length (c ∷ cs)) (c ∷ cs) (handle_devid id p).0).identity.cert_pem ≡ pem
unfolding handle_devid
take_chunks_lem env id c cs pem p l d m =
    take_chunks_from env 1 (length (c ∷ cs)) c cs [] pem (handle_devid id p).0
      (record { receiving = refl; next = refl; known = inl refl; collected = refl }) (omega arith)
      (omega (arith, l)) d m
