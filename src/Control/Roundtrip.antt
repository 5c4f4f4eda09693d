-- ===== src/Control/Roundtrip.antt =====
-- `encode` and `decode` of control.cpp together.
use mathlib.Core.List.{append_assoc, append-nil}
use netbench.Base.{
  ℕ, ◌^◌, ◌<◌, ◌≡◌, refl, [], ◌∷◌, ◌++◌, arith, ◌==◌, length, ap, ◌∙◌, sym, Bool, false, ◌||◌,
}
use netbench.Base.Results.{ok}
use netbench.Control.{
  Bytes, PortMap, put_word, add_t, add_s, encode_entries, encode, assign, decode_entries, decode,
}
use netbench.Control.Words.{word_2, word_4, read_t-put_word, read_s-add_s}

-- The bytes of the entries, bracketed as they are read.
abbrev pub entries : PortMap → Bytes
entries [] = []
entries ((port, s) ∷ m) = put_word 2 port ++ (put_word 4 (length s) ++ (s ++ entries m))

encode_entries-eq : (m : PortMap) (out : Bytes) → encode_entries m out ≡ out ++ entries m
unfolding encode_entries add_s add_t
encode_entries-eq [] out = sym (append-nil out)
encode_entries-eq ((port, s) ∷ m) out =
    encode_entries-eq m (((out ++ put_word 2 port) ++ put_word 4 (length s)) ++ s)
    ∙ simp append_assoc

pub encode-eq : (m : PortMap) → encode m ≡ put_word 4 (length m) ++ entries m
unfolding encode add_t
encode-eq m = encode_entries-eq m (put_word 4 (length m))

-- What the fields of the encoding can hold.
abbrev pub Fits : PortMap → Type 0
Fits [] = Unit
Fits ((port, s) ∷ m) = (port < 2 ^ 16) × (length s < 2 ^ 32) × Fits m

abbrev pub has : ℕ → PortMap → Bool
has k [] = false
has k ((p, s) ∷ m) = p == k || has k m

-- No port stands twice, as in every `unordered_map`.
abbrev pub Distinct : PortMap → Type 0
Distinct [] = Unit
Distinct ((p, s) ∷ m) = (has p m ≡ false) × Distinct m

assign_fresh :
    (acc : PortMap) (k : ℕ) (s : Bytes) → has k acc ≡ false → assign k s acc ≡ acc ++ ((k, s) ∷ [])
unfolding assign
assign_fresh [] k s h = refl
assign_fresh ((p, t) ∷ acc) k s h = ground (arith, assign_fresh acc k s)

has-append :
    (acc m : PortMap) (k p : ℕ) (s : Bytes) → has p (acc ++ ((k, s) ∷ m)) ≡ false → (p == k) ≡ false
has-append [] m k p s h = ground arith
has-append ((q, t) ∷ acc) m k p s h = ground (arith, has-append acc m k p s)

Distinct-fresh :
    (acc m : PortMap) (k : ℕ) (s : Bytes) → Distinct (acc ++ ((k, s) ∷ m)) → has k acc ≡ false
Distinct-fresh [] m k s d = refl
Distinct-fresh ((p, t) ∷ acc) m k s d =
    ground (arith, Distinct-fresh acc m k s d.1, has-append acc m k p s d.0)

decode_entries-entries :
    (m acc : PortMap) (rest : Bytes)
    → Fits m
    → Distinct (acc ++ m)
    → decode_entries (length m) (entries m ++ rest) acc ≡ ok (acc ++ m)
unfolding decode_entries
decode_entries-entries [] acc rest f d = ap ok (sym (append-nil acc))
decode_entries-entries ((port, s) ∷ m) acc rest f d =
    let grouped : Distinct ((acc ++ ((port, s) ∷ [])) ++ m) = rw append_assoc d in
    simp append_assoc (
      rw
        (
          read_t-put_word 2 port (put_word 4 (length s) ++ (s ++ (entries m ++ rest)))
              (word_2 port f.0),
          read_s-add_s s (entries m ++ rest) f.1,
          assign_fresh acc port s (Distinct-fresh acc m port s d),
        )
        (decode_entries-entries m (acc ++ ((port, s) ∷ [])) rest f.2 grouped
          ∙ ap ok (append_assoc acc _ m)))

-- `decode` gives back the map that was encoded, if no port stands twice, every port and name fits its
-- field, and the number of entries fits 32 bits. Bytes behind the encoding do not matter.
pub decode-encode :
    (m : PortMap) (rest : Bytes)
    → Fits m
    → Distinct m
    → length m < 2 ^ 32
    → decode (encode m ++ rest) ≡ ok m
unfolding decode
decode-encode m rest f d small = rw (encode-eq m) (
    rw append_assoc (
      rw (read_t-put_word 4 (length m) (entries m ++ rest) (word_4 (length m) small))
        (decode_entries-entries m [] rest f d)))
