-- ===== src/Launch/Groups.antt =====
-- The end of `main` in netbench.cpp: results are gathered by name, and names with several results are
-- aggregated. A name is compared only: its equality is an instance argument.
use Prim.Native.String.{String}
use text.Mathlib.Text.{◌==◌ as str_eq}
use text.Mathlib.TextEquality.{eq_iff}
use mathlib.Core.List.{append_assoc, append-nil}
use netbench.Base.{
  ◌≡◌, ◌↔◌, refl, ap, sym, ◌∙◌, List, [], ◌∷◌, ◌++◌, length, arith, ltb, Bool, true, false,
  if◌then◌else◌, inl, inr, Bool-cases,
}

-- Names with a test for equality.
pub record Name (K : Type 0) : Type 0 where
  pub same : K → K → Bool
  pub same_iff : (j k : K) → (same j k ≡ true) ↔ (j ≡ k)

instance abbrev pub string_name : Name String
string_name = record { same = str_eq; same_iff = eq_iff }

module _ {K : Type 0} ⦃name : Name K⦄ where
  open name use {same, same_iff}

  abbrev pub has : K → List K → Bool
  has k [] = false
  has k (j ∷ js) = if same j k then true else has k js

  same_refl : (k : K) → same k k ≡ true
  same_refl k = (same_iff k k).1 refl

module _ {K : Type 0} {R : Type 0} ⦃name : Name K⦄ where
  open name use {same, same_iff}

  -- `find_if` over `to_agg`, then `push_back` or `emplace_back`.
  unfoldable pub add_result : K → R → List (K × List R) → List (K × List R)
  add_result k r [] = (k, r ∷ []) ∷ []
  add_result k r ((j, rs) ∷ groups) =
      if same j k then (j, rs ++ r ∷ []) ∷ groups else (j, rs) ∷ add_result k r groups

  -- The loop over `results`
  unfoldable pub gather_onto : List (K × List R) → List (K × R) → List (K × List R)
  unfolding add_result
  gather_onto groups [] = groups
  gather_onto groups ((k, r) ∷ results) = gather_onto (add_result k r groups) results

  unfoldable pub gather : List (K × R) → List (K × List R)
  unfolding gather_onto
  gather results = gather_onto [] results

  -- The last loop: what is aggregated.
  unfoldable pub to_aggregate : List (K × List R) → List (K × List R)
  to_aggregate [] = []
  to_aggregate ((k, rs) ∷ groups) =
      if ltb 1 (length rs) then (k, rs) ∷ to_aggregate groups else to_aggregate groups

  -- The results that have a name, in order.
  abbrev pub named : K → List (K × R) → List R
  named k [] = []
  named k ((j, r) ∷ results) = if same j k then r ∷ named k results else named k results

  -- The group of a name: the first one.
  abbrev pub group_of : K → List (K × List R) → List R
  group_of k [] = []
  group_of k ((j, rs) ∷ groups) = if same j k then rs else group_of k groups

  -- The names of the groups, and a list of names without those that were there before.
  abbrev pub names : List (K × List R) → List K
  names [] = []
  names ((k, rs) ∷ groups) = k ∷ names groups

  abbrev pub firsts : List K → List (K × R) → List K
  firsts seen [] = seen
  firsts seen ((k, r) ∷ results) =
      if has k seen then firsts seen results else firsts (seen ++ k ∷ []) results

  group_of-add_result :
      (k j : K) (r : R) (groups : List (K × List R))
      → group_of k (add_result j r groups)
        ≡ (if same j k then group_of k groups ++ r ∷ [] else group_of k groups)
  unfolding add_result
  group_of-add_result k j r [] = ground arith
  group_of-add_result k j r ((i, rs) ∷ groups) =
      ground (arith, same_iff i j, same_iff i k, same_iff j k, group_of-add_result k j r groups)

  names-add_result :
      (k : K) (r : R) (groups : List (K × List R))
      → names (add_result k r groups)
        ≡ (if has k (names groups) then names groups else names groups ++ k ∷ [])
  unfolding add_result
  names-add_result k r [] = refl
  names-add_result k r ((j, rs) ∷ groups) = elim (Bool-cases (same j k)) [
    | inl e ↦ ground (arith, e)
    | inr e ↦ ground (arith, e, names-add_result k r groups)
  ]

  group_of-gather_onto :
      (k : K) (groups : List (K × List R)) (results : List (K × R))
      → group_of k (gather_onto groups results) ≡ group_of k groups ++ named k results
  unfolding gather_onto
  group_of-gather_onto k groups [] = sym (append-nil (group_of k groups))
  group_of-gather_onto k groups ((j, r) ∷ results) =
      group_of-gather_onto k (add_result j r groups) results ∙ elim (Bool-cases (same j k)) [
        | inl e ↦ rw e (
            ap (λ g. g ++ named k results) (group_of-add_result k j r groups ∙ rw e refl)
            ∙ append_assoc (group_of k groups) (r ∷ []) (named k results))
        | inr e ↦
            rw e (ap (λ g. g ++ named k results) (group_of-add_result k j r groups ∙ rw e refl))
      ]

  names-gather_onto :
      (groups : List (K × List R)) (results : List (K × R))
      → names (gather_onto groups results) ≡ firsts (names groups) results
  unfolding gather_onto
  names-gather_onto groups [] = refl
  names-gather_onto groups ((k, r) ∷ results) =
      names-gather_onto (add_result k r groups) results ∙ elim (Bool-cases (has k (names groups))) [
        | inl e ↦ rw e (ap (λ g. firsts g results) (names-add_result k r groups ∙ rw e refl))
        | inr e ↦ rw e (ap (λ g. firsts g results) (names-add_result k r groups ∙ rw e refl))
      ]

  -- The groups have the names of the results, each once, in the order in which they first came, and
  -- the group of a name holds exactly the results with that name, in their order.
  pub gather_lem :
      (results : List (K × R))
      → (names (gather results) ≡ firsts [] results)
        × ((k : K) → group_of k (gather results) ≡ named k results)
  unfolding gather
  gather_lem results = (names-gather_onto [] results, λ k. group_of-gather_onto k [] results)
