-- ===== src/Uring/Tags.antt =====
-- `tag`, `untag` and `get_tag` of `IOUringRunner`.
use netbench.Base.{ℕ, ◌+◌, ◌%◌, ◌^◌, ◌<◌, ◌≡◌, arith}
use netbench.Base.Bits.{and_mask, and_high, or_clear}
use netbench.Uring.{tag, untag, get_tag}

tag-eq-add : (ptr x : ℕ) → ptr % 16 ≡ 0 → x < 16 → tag ptr x ≡ ptr + x
unfolding tag
tag-eq-add ptr x aligned small = or_clear 4 ptr x aligned small

-- For a pointer that is a multiple of 16 and a tag below 16, `untag` gives back the pointer and
-- `get_tag` the tag.
pub untag-tag :
    (ptr x : ℕ)
    → ptr < 2 ^ 64
    → ptr % 16 ≡ 0
    → x < 16
    → (untag (tag ptr x) ≡ ptr) × (get_tag (tag ptr x) ≡ x)
unfolding untag get_tag
untag-tag ptr x fits aligned small =
    let sum = tag-eq-add ptr x aligned small in
    (
      omega (arith, sum, and_high (tag ptr x) (omega (arith, sum))),
      omega (arith, sum, and_mask 4 (tag ptr x)),
    )
