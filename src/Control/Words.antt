-- ===== src/Control/Words.antt =====
-- `addT`, `addS`, `readT` and `readS` of control.cpp, with what follows the word or the string.
use netbench.Base.{
  ℕ, zero, suc, ◌/◌, ◌%◌, ◌^◌, ◌<◌, ◌≡◌, refl, ◌∷◌, ◌++◌, arith, lt→ltb, le→ltb, length, take, drop,
  length-append, take-append_self, drop-append_self, ap,
}
use netbench.Base.Results.{ok, err, not_enough_data}
use netbench.Control.{Bytes, put_word, get_word, read_t, read_s}

pub length-put_word : (n v : ℕ) → length (put_word n v) ≡ n
length-put_word zero v = refl
length-put_word (suc n) v = ap suc (length-put_word n (v / 256))

pub take-put_word : (n v : ℕ) (rest : Bytes) → take n (put_word n v ++ rest) ≡ put_word n v
take-put_word zero v rest = refl
take-put_word (suc n) v rest = ap (◌∷◌ (v % 256)) (take-put_word n (v / 256) rest)

pub drop-put_word : (n v : ℕ) (rest : Bytes) → drop n (put_word n v ++ rest) ≡ rest
drop-put_word zero v rest = refl
drop-put_word (suc n) v rest = drop-put_word n (v / 256) rest

pub word_2 : (v : ℕ) → v < 2 ^ 16 → get_word (put_word 2 v) ≡ v
word_2 v h = omega arith

pub word_4 : (v : ℕ) → v < 2 ^ 32 → get_word (put_word 4 v) ≡ v
word_4 v h = omega arith

-- `readT` after `addT`, for any width at which the word fits.
pub read_t-put_word :
    (n v : ℕ) (rest : Bytes)
    → get_word (put_word n v) ≡ v
    → read_t n (put_word n v ++ rest) ≡ ok (v, rest)
unfolding read_t
read_t-put_word n v rest fits = rw (
  le→ltb (length (put_word n v ++ rest)) n
      (omega (arith, length-append (put_word n v) rest, length-put_word n v)),
  take-put_word n v rest,
  drop-put_word n v rest,
  fits,
)

pub read_t_short : (n : ℕ) (at : Bytes) → length at < n → read_t n at ≡ err not_enough_data
unfolding read_t
read_t_short n at lt = rw (lt→ltb (length at) n lt)

-- `readS` after `addS`.
pub read_s-add_s :
    (s rest : Bytes)
    → length s < 2 ^ 32
    → read_s (put_word 4 (length s) ++ (s ++ rest)) ≡ ok (s, rest)
unfolding read_s
read_s-add_s s rest fits = rw (
  read_t-put_word 4 (length s) (s ++ rest) (word_4 (length s) fits),
  le→ltb (length (s ++ rest)) (length s) (omega (arith, length-append s rest)),
  take-append_self s rest,
  drop-append_self s rest,
)
