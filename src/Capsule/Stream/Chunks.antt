-- ===== src/Capsule/Stream/Chunks.antt =====
-- However a stream of capsules is cut into chunks, the same capsules come out.
use mathlib.Core.Path.{subst, ap₂}
use straw.Common.{
  ℕ, zero, suc, ◌<◌, ◌≡◌, refl, sym, ap, ◌∙◌, inl, inr, List, [], ◌∷◌, ◌++◌, append_assoc,
  append-nil, length, none, some, Result, ok, and_then, arith, All,
}
use straw.Error.{DecodeError}
use straw.Buffer.{done, fail}
use straw.Buffer.Laws.{Read-cases}
use straw.Capsule.{Capsule}
use straw.Capsule.Loop.{concat_map}
use straw.Capsule.Envelope.{
  read_envelope, encode_capsule, capsule_bytes, IsSendable, type_of, payload_of,
}
use straw.Capsule.Envelope.Laws.{
  read_envelope-IsTotal, read_envelope-IsLocal, read_envelope-Takes, read_envelope-capsule_bytes,
  decode_payload-payload_of, encode_capsule-bytes,
}
use straw.Capsule.Stream.{CapsuleBuffer, new, next_capsule, drain, receive, receive_all}
use straw.Capsule.Stream.Laws.{
  verdict, next_capsule-verdict, IsIncomplete, verdict-done, verdict-fail,
}

-- The capsules to come, as bytes, and a last one that is cut off.
abbrev stream : List Capsule → List ℕ → List ℕ
stream cs tail = concat_map capsule_bytes cs ++ tail

-- What a drain leaves: it took `found`, and `rest` with `more` is the stream of `left`.
record Drained (r : Result DecodeError (List Capsule) × CapsuleBuffer) (seen : List Capsule)
    (more : List ℕ) (cs : List Capsule) (tail : List ℕ) : Type 0 where
  found : List Capsule
  left : List Capsule
  rest : List ℕ
  result : r ≡ (ok (seen ++ found), record { buf = rest })
  split : cs ≡ found ++ left
  remains : rest ++ more ≡ stream left tail
  incomplete : IsIncomplete rest

drain_step :
    (fuel : ℕ) (seen : List Capsule) (b : List ℕ) (c : Capsule) (rest : List ℕ)
    → next_capsule (record { buf = b }) ≡ (ok (some c), record { buf = rest })
    → drain (suc fuel) seen (record { buf = b })
      ≡ drain fuel (seen ++ c ∷ []) (record { buf = rest })
unfolding drain
drain_step fuel seen b c rest e = ground arith

drain_stop :
    (fuel : ℕ) (seen : List Capsule) (b : List ℕ)
    → next_capsule (record { buf = b }) ≡ (ok none, record { buf = b })
    → drain (suc fuel) seen (record { buf = b }) ≡ (ok seen, record { buf = b })
unfolding drain
drain_stop fuel seen b e = ground arith

done-injective : {A : Type 0} {a b : A} {r s : List ℕ} → done a r ≡ done b s → (a ≡ b) × (r ≡ s)
done-injective e = (cc, cc)

-- A whole envelope at the front of a stream is its first capsule.
first_capsule :
    (b more : List ℕ) (cs : List Capsule) (tail : List ℕ) (p : ℕ × List ℕ) (rest : List ℕ)
    → All IsSendable cs
    → IsIncomplete tail
    → b ++ more ≡ stream cs tail
    → read_envelope b ≡ done p rest
    → (c : Capsule) × (cs' : List Capsule) × (cs ≡ c ∷ cs')
      × (p ≡ (type_of c, payload_of c))
      × (rest ++ more ≡ stream cs' tail)
first_capsule b more [] tail p rest v inc same e =
    absurd
      (inc p (rest ++ more) (ap read_envelope (sym same) ∙ read_envelope-IsLocal b more p rest e))
first_capsule b more (c ∷ cs) tail p rest v inc same e =
    let whole : done p (rest ++ more) ≡ done (type_of c, payload_of c) (stream cs tail) =
      sym (read_envelope-IsLocal b more p rest e)
      ∙ ap read_envelope (same ∙ append_assoc (capsule_bytes c) (concat_map capsule_bytes cs) tail)
      ∙ read_envelope-capsule_bytes c (stream cs tail) v.0 in
    let (ep, er) = done-injective whole in (c, cs, refl, ep, er)

next_of_whole :
    (b : List ℕ) (p : ℕ × List ℕ) (rest : List ℕ) (c : Capsule)
    → IsSendable c
    → p ≡ (type_of c, payload_of c)
    → read_envelope b ≡ done p rest
    → next_capsule (record { buf = b }) ≡ (ok (some c), record { buf = rest })
next_of_whole b p rest c v ep e =
    next_capsule-verdict (record { buf = b })
    ∙ ap (verdict (record { buf = b })) (e ∙ ap (λ q. done q rest) ep)
    ∙ verdict-done (record { buf = b }) (type_of c) (payload_of c) rest c
        (decode_payload-payload_of c v)

next_of_partial :
    (b : List ℕ) (x : DecodeError) (rest : List ℕ)
    → read_envelope b ≡ fail x rest
    → next_capsule (record { buf = b }) ≡ (ok none, record { buf = b })
next_of_partial b x rest e =
    next_capsule-verdict (record { buf = b })
    ∙ ap (verdict (record { buf = b })) e
    ∙ verdict-fail (record { buf = b }) x rest

extend :
    (fuel : ℕ) (seen : List Capsule) (b more : List ℕ) (cs : List Capsule) (tail : List ℕ)
    (c : Capsule) (cs' : List Capsule) (rest : List ℕ)
    → next_capsule (record { buf = b }) ≡ (ok (some c), record { buf = rest })
    → cs ≡ c ∷ cs'
    → Drained (drain fuel (seen ++ c ∷ []) (record { buf = rest })) (seen ++ c ∷ []) more cs' tail
    → Drained (drain (suc fuel) seen (record { buf = b })) seen more cs tail
extend fuel seen b more cs tail c cs' rest e ec d = record {
  found = c ∷ d.found;
  left = d.left;
  rest = d.rest;
  result =
      drain_step fuel seen b c rest e
      ∙ d.result
      ∙ ap (λ t. (ok t, record { buf = d.rest })) (append_assoc seen (c ∷ []) d.found);
  split = ec ∙ ap (λ t. c ∷ t) d.split;
  remains = d.remains;
  incomplete = d.incomplete;
}

All-right : (xs ys : List Capsule) → All IsSendable (xs ++ ys) → All IsSendable ys
All-right [] ys h = h
All-right (x ∷ xs) ys h = All-right xs ys h.1

IsSendable-left :
    (cs found left : List Capsule) → cs ≡ found ++ left → All IsSendable cs → All IsSendable left
IsSendable-left cs found left e v = All-right found left (subst (All IsSendable) e v)

empty-IsIncomplete : IsIncomplete []
empty-IsIncomplete p rest e = absurd (omega (arith, read_envelope-Takes [] p rest e))

-- Draining takes whole capsules off the front until none is left. Each takes a byte at least.
drain-Drained :
    (fuel : ℕ) (seen : List Capsule) (b more : List ℕ) (cs : List Capsule) (tail : List ℕ)
    → length b < fuel
    → All IsSendable cs
    → IsIncomplete tail
    → b ++ more ≡ stream cs tail
    → Drained (drain fuel seen (record { buf = b })) seen more cs tail
drain-Drained zero seen b more cs tail h v inc same = elim h [ ]
drain-Drained (suc fuel) seen b more cs tail h v inc same = elim (Read-cases (read_envelope b)) [
  | inl (p, rest, e) ↦
      let (c, cs', ec, ep, er) = first_capsule b more cs tail p rest v inc same e in
      let v' : All IsSendable (c ∷ cs') = subst (All IsSendable) ec v in
      extend fuel seen b more cs tail c cs' rest (next_of_whole b p rest c v'.0 ep e) ec (
        drain-Drained fuel (seen ++ c ∷ []) rest more cs' tail
          (omega (arith, read_envelope-Takes b p rest e)) v'.1 inc er)
  | inr (inl (x, rest, e)) ↦ record {
    found = [];
    left = cs;
    rest = b;
    result =
        drain_stop fuel seen b (next_of_partial b x rest e)
        ∙ ap (λ t. (ok t, record { buf = b })) (sym (append-nil seen));
    split = refl;
    remains = same;
    incomplete = λ p rest' q. absurd (cc);
  }
  | inr (inr e) ↦ absurd (read_envelope-IsTotal b (omega arith) e)
]

abbrev flatten : List (List ℕ) → List ℕ
flatten [] = []
flatten (chunk ∷ chunks) = chunk ++ flatten chunks

receive_step :
    (seen seen' : List Capsule) (b rest chunk : List ℕ) (chunks : List (List ℕ))
    → receive seen (record { buf = b }) chunk ≡ (ok seen', record { buf = rest })
    → receive_all seen (record { buf = b }) (chunk ∷ chunks)
      ≡ receive_all seen' (record { buf = rest }) chunks
unfolding receive_all
receive_step seen seen' b rest chunk chunks e = ground arith

receive_all-from :
    (chunks : List (List ℕ)) (seen : List Capsule) (b : List ℕ) (cs : List Capsule) (tail : List ℕ)
    → All IsSendable cs
    → IsIncomplete tail
    → IsIncomplete b
    → b ++ flatten chunks ≡ stream cs tail
    → receive_all seen (record { buf = b }) chunks ≡ (ok (seen ++ cs), record { buf = tail })
unfolding receive
receive_all-from [] seen b [] tail v inc hb same =
    unfold receive_all in
    ap₂ (λ s t. (ok s, record { buf = t })) (sym (append-nil seen)) (sym (append-nil b) ∙ same)
receive_all-from [] seen b (c ∷ cs) tail v inc hb same = absurd (
    hb (type_of c, payload_of c) (stream cs tail)
      (ap read_envelope (
          sym (append-nil b)
          ∙ same
          ∙ append_assoc (capsule_bytes c) (concat_map capsule_bytes cs) tail)
        ∙ read_envelope-capsule_bytes c _ v.0))
receive_all-from (chunk ∷ chunks) seen b cs tail v inc hb same =
    let d =
      drain-Drained (suc (length (b ++ chunk))) seen (b ++ chunk) (flatten chunks) cs tail
        (omega arith) v inc (append_assoc b chunk (flatten chunks) ∙ same) in
    receive_step seen (seen ++ d.found) b d.rest chunk chunks d.result
    ∙ receive_all-from chunks (seen ++ d.found) d.rest d.left tail
        (IsSendable-left cs d.found d.left d.split v) inc d.incomplete d.remains
    ∙ ap (λ t. (ok t, record { buf = tail }))
        (append_assoc seen d.found d.left ∙ ap (λ t. seen ++ t) (sym d.split))

-- The capsules encoded one after the other behind `buf`.
unfoldable pub encode_all : List Capsule → List ℕ → Result DecodeError (List ℕ)
encode_all [] buf = ok buf
encode_all (c ∷ cs) buf = and_then (encode_capsule c buf) (encode_all cs)

encode_all-bytes :
    (cs : List Capsule) (buf : List ℕ)
    → All IsSendable cs
    → encode_all cs buf ≡ ok (buf ++ concat_map capsule_bytes cs)
unfolding encode_all
encode_all-bytes [] buf v = ap ok (sym (append-nil buf))
encode_all-bytes (c ∷ cs) buf v =
    ap (λ r. and_then r (encode_all cs)) (encode_capsule-bytes c buf v.0)
    ∙ encode_all-bytes cs (buf ++ capsule_bytes c) v.1
    ∙ ap ok (append_assoc buf (capsule_bytes c) (concat_map capsule_bytes cs))

same_ok : (r : Result DecodeError (List ℕ)) {a b : List ℕ} → r ≡ ok a → r ≡ ok b → a ≡ b
same_ok r e h = cc

-- Let every capsule of a list be sendable: its addresses and ranges are valid, an address request is
-- not empty, the ranges of a route advertisement stand in order, the payload fits its length field,
-- and an unknown capsule has a type that fits a varint and is none of the known ones. If `encode_capsule` writes these
-- capsules one after the other as `bytes`, and no whole capsule envelope stands at the front of
-- `tail`, then `bytes` with `tail` behind them, in whatever chunks they come, give exactly these
-- capsules in order, and `tail` stays in the buffer.
pub receive_all-stream :
    (cs : List Capsule) (bytes tail : List ℕ) (chunks : List (List ℕ))
    → All IsSendable cs
    → encode_all cs [] ≡ ok bytes
    → IsIncomplete tail
    → flatten chunks ≡ bytes ++ tail
    → receive_all [] new chunks ≡ (ok cs, record { buf = tail })
receive_all-stream cs bytes tail chunks v encoded inc same =
    let written : bytes ≡ concat_map capsule_bytes cs =
      same_ok (encode_all cs []) encoded (encode_all-bytes cs [] v) in
    receive_all-from chunks [] [] cs tail v inc empty-IsIncomplete
      (same ∙ ap (λ b. b ++ tail) written)
