-- ===== src/Control/Truncated.antt =====
-- `decode` of control.cpp on an encoding that was cut short.
use netbench.Base.{
  ℕ, zero, suc, ◌+◌, ◌-◌, ◌^◌, ◌<◌, ◌≤◌, ◌≡◌, refl, List, [], ◌∷◌, ◌++◌, arith, ltb, ltb→lt, length,
  take, length-append, length-take, ap, ◌∙◌, inl, inr, Bool-cases, lt→ltb,
}
use netbench.Base.Results.{ok, err, not_enough_data, ◌>>=◌}
use netbench.Control.{
  Bytes, PortMap, put_word, read_t, read_s, encode, assign, decode_entries, decode,
}
use netbench.Control.Words.{
  word_2, word_4, read_t-put_word, read_t_short, read_s-add_s, length-put_word,
}
use netbench.Control.Roundtrip.{entries, encode-eq, Fits}

take_past {ℓ} :
    {A : Type ℓ} (n : ℕ) (xs ys : List A)
    → length xs ≤ n
    → take n (xs ++ ys) ≡ xs ++ take (n - length xs) ys
take_past n [] ys h = ap (λ k. take k ys) (omega arith)
take_past zero (x ∷ xs) ys h = absurd (omega arith)
take_past (suc n) (x ∷ xs) ys h =
    ap (◌∷◌ x) (take_past n xs ys (omega arith) ∙ ap (λ k. xs ++ take k ys) (omega arith))

-- A word followed by what is left of the bytes behind it.
take_word :
    (w v n : ℕ) (ys : Bytes) → w ≤ n → take n (put_word w v ++ ys) ≡ put_word w v ++ take (n - w) ys
take_word w v n ys h =
    take_past n (put_word w v) ys (omega (arith, length-put_word w v))
    ∙ ap (λ k. put_word w v ++ take (n - k) ys) (length-put_word w v)

read_t_cut : (w n : ℕ) (ys : Bytes) → n < w → read_t w (take n ys) ≡ err not_enough_data
read_t_cut w n ys h = read_t_short w (take n ys) (omega (arith, length-take n ys))

-- A string of which bytes are missing.
read_s_cut :
    (n : ℕ) (s ys : Bytes)
    → length s < 2 ^ 32
    → n < 4 + length s
    → read_s (take n (put_word 4 (length s) ++ (s ++ ys))) ≡ err not_enough_data
unfolding read_s
read_s_cut n s ys fits short = elim (Bool-cases (ltb n 4)) [
  | inl e ↦ rw (read_t_cut 4 n (put_word 4 (length s) ++ (s ++ ys)) (ltb→lt n 4 e), ◌>>=◌) refl
  | inr e ↦ rw (take_word 4 (length s) n (s ++ ys) (ground arith)) (
      rw (
        read_t-put_word 4 (length s) (take (n - 4) (s ++ ys)) (word_4 (length s) fits),
        lt→ltb (length (take (n - 4) (s ++ ys))) (length s)
            (ground (arith, length-take (n - 4) (s ++ ys))),
      ))
]

-- A string that is whole, and what is left of the rest.
read_s_whole :
    (n : ℕ) (s ys : Bytes)
    → length s < 2 ^ 32
    → 4 + length s ≤ n
    → read_s (take n (put_word 4 (length s) ++ (s ++ ys))) ≡ ok (s, take (n - 4 - length s) ys)
read_s_whole n s ys fits long =
    rw (take_word 4 (length s) n (s ++ ys) (omega arith), take_past (n - 4) s ys (omega arith))
      (read_s-add_s s (take (n - 4 - length s) ys) fits)

decode_entries_cut :
    (m acc : PortMap) (n : ℕ)
    → Fits m
    → n < length (entries m)
    → decode_entries (length m) (take n (entries m)) acc ≡ err not_enough_data
unfolding decode_entries
decode_entries_cut [] acc n f h = absurd (omega arith)
decode_entries_cut ((port, s) ∷ m) acc n f h = elim (Bool-cases (ltb n 2)) [
  | inl e ↦ rw (read_t_cut 2 n (entries ((port, s) ∷ m)) (ltb→lt n 2 e))
  | inr e ↦ rw (take_word 2 port n _ (ground arith)) (
      rw
        (read_t-put_word 2 port (take (n - 2) (put_word 4 (length s) ++ (s ++ entries m)))
          (word_2 port f.0))
        (elim (Bool-cases (ltb (n - 2) (4 + length s))) [
          | inl e' ↦ rw (read_s_cut (n - 2) s (entries m) f.1 (ltb→lt _ _ e'))
          | inr e' ↦ rw (read_s_whole (n - 2) s (entries m) f.1 (ground arith)) (
              decode_entries_cut m (assign port s acc) (n - 2 - 4 - length s) f.2
                (ground (arith, sizes)))
        ]))
]
  where
    sizes : length (entries ((port, s) ∷ m)) ≡ 6 + length s + length (entries m)
    sizes =
        omega (
          arith,
          length-append (put_word 4 (length s)) (s ++ entries m),
          length-append s (entries m),
        )

-- If every port and name fits its field and the number of entries fits 32 bits, every proper prefix of
-- an encoding is refused with "not enough data".
pub decode_cut :
    (m : PortMap) (n : ℕ)
    → Fits m
    → length m < 2 ^ 32
    → n < length (encode m)
    → decode (take n (encode m)) ≡ err not_enough_data
unfolding decode
decode_cut m n f small h = elim (Bool-cases (ltb n 4)) [
  | inl e ↦ rw (read_t_cut 4 n (encode m) (ltb→lt n 4 e))
  | inr e ↦ rw (encode-eq m) (
      rw (take_word 4 (length m) n (entries m) (ground arith)) (
        rw (read_t-put_word 4 (length m) (take (n - 4) (entries m)) (word_4 (length m) small))
          (decode_entries_cut m [] (n - 4) f (ground (arith, ap length (encode-eq m))))))
]
