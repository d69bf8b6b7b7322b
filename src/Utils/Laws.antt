-- ===== src/Utils/Laws.antt =====
-- Splitting, trimming, masks and comparison (src/core/helpers/utils.hpp).
use obmc_yadro_webapp.Prelude.{
  ℕ, zero, suc, ◌+◌, ◌-◌, ◌*◌, ◌^◌, ◌≤◌, ◌<◌, ◌≡◌, refl, ◌≢◌, ◌↔◌, ◌⊎◌, inl, inr, ap, ◌∙◌, Bool,
  true, false, ◌&&◌, none, some, List, [], ◌∷◌, ◌++◌, arith, if◌then◌else◌, ◌==◌, nat_eq,
  nat_beq_iff, All, Bool-cases, Option-cases, length,
}
use obmc_yadro_webapp.Prelude.Text.{Text, split_first, split_first-append}
use obmc_yadro_webapp.Utils.{
  Crypto, constant_time_string_compare, drop_while, drop_while_end, isspace, trim, split_to_vector,
  split_to_pair, netmask_value, octet,
}

-- The comparison decides equality of texts of any sizes.
pub constant_time_string_compare_iff :
    (crypto : Crypto) (a b : Text) → (constant_time_string_compare crypto a b ≡ true) ↔ (a ≡ b)
unfolding constant_time_string_compare
constant_time_string_compare_iff crypto a b = elim (Bool-cases (length a == length b)) [
  | inl same ↦
      let sizes : length a ≡ length b = ground arith in
      rw same (
        (λ h. (crypto.memcmp_iff a b sizes).0 ((nat_beq_iff _ _).0 h)),
        (λ e. (nat_beq_iff _ _).1 ((crypto.memcmp_iff a b sizes).1 e)),
      )
  | inr other ↦ rw other ((λ h. cc), (λ (e : a ≡ b). ground (arith, ap length e)))
]

-- Joining the parts by the delimiter.
pub join : ℕ → List Text → Text
join d [] = []
join d (part ∷ []) = part
join d (part ∷ next ∷ parts) = part ++ d ∷ join d (next ∷ parts)

join-push :
    (d c : ℕ) (part : Text) (parts : List Text)
    → join d ((c ∷ part) ∷ parts) ≡ c ∷ join d (part ∷ parts)
unfolding join
join-push d c part [] = refl
join-push d c part (next ∷ parts) = refl

join-cut :
    (d : ℕ) (part : Text) (parts : List Text)
    → join d ([] ∷ part ∷ parts) ≡ d ∷ join d (part ∷ parts)
unfolding join
join-cut d part parts = refl

split_to_vector-cons :
    (s : Text) (d : ℕ) → (part : Text) × (parts : List Text) × (split_to_vector s d ≡ part ∷ parts)
unfolding split_to_vector
split_to_vector-cons [] d = ([], [], refl)
split_to_vector-cons (c ∷ s) d = elim (Bool-cases (c == d)) [
  | inl cut ↦ ([], split_to_vector s d, rw cut)
  | inr kept ↦ let (part, parts, e) = split_to_vector-cons s d in (c ∷ part, parts, rw (kept, e))
]

-- Joining the parts gives the text back: no byte is lost or moved.
pub join-split_to_vector : (s : Text) (d : ℕ) → join d (split_to_vector s d) ≡ s
unfolding split_to_vector
join-split_to_vector [] d = unfold join in refl
join-split_to_vector (c ∷ s) d =
    let (part, parts, e) = split_to_vector-cons s d in
    let ih = join-split_to_vector s d in
    elim (Bool-cases (c == d)) [
      | inl cut ↦
          let same : c ≡ d = (nat_beq_iff c d).0 cut in
          rw (cut, e) (join-cut d part parts ∙ cc (same, rw e at ih))
      | inr kept ↦ rw (kept, e) (join-push d c part parts ∙ ap (◌∷◌ c) (rw e at ih))
    ]

-- No part holds the delimiter.
pub split_to_vector-All : (s : Text) (d : ℕ) → All (All (λ c. c ≢ d)) (split_to_vector s d)
unfolding split_to_vector
split_to_vector-All [] d = (tt, tt)
split_to_vector-All (c ∷ s) d =
    let (part, parts, e) = split_to_vector-cons s d in
    let ih = rw e at (split_to_vector-All s d) in
    elim (Bool-cases (c == d)) [
      | inl cut ↦ rw (cut, e) (tt, ih)
      | inr kept ↦ rw (kept, e) ((ground arith, ih.0), ih.1)
    ]

-- Splitting loses nothing, as joining the parts by the delimiter gives the text back, and no part
-- holds the delimiter.
pub split_to_vector_lem :
    (s : Text) (d : ℕ)
    → (join d (split_to_vector s d) ≡ s) × All (All (λ c. c ≢ d)) (split_to_vector s d)
split_to_vector_lem s d = (join-split_to_vector s d, split_to_vector-All s d)

-- Without the delimiter the whole text comes first; with it the halves surround its first
-- occurrence.
pub split_to_pair_lem :
    (s : Text) (d : ℕ)
    → ((split_first d s ≡ none) × (split_to_pair s d ≡ (s, [])))
      ⊎ (s ≡ (split_to_pair s d).0 ++ d ∷ (split_to_pair s d).1)
unfolding split_to_pair
split_to_pair_lem s d = elim (Option-cases (split_first d s)) [
  | inl missed ↦ inl (missed, rw (missed, split_to_pair))
  | inr ((before, after), found) ↦
      inr (rw (found, split_to_pair) (split_first-append d s before after found))
]

drop_while_lem :
    (p : ℕ → Bool) (s : Text)
    → (prefix : Text) × All (λ c. p c ≡ true) prefix × (s ≡ prefix ++ drop_while p s)
unfolding drop_while
drop_while_lem p [] = ([], tt, refl)
drop_while_lem p (c ∷ s) = elim (Bool-cases (p c)) [
  | inl gone ↦
      let (prefix, all, e) = drop_while_lem p s in (c ∷ prefix, (gone, all), rw gone (ap (◌∷◌ c) e))
  | inr kept ↦ ([], tt, rw kept)
]

drop_while_end_lem :
    (p : ℕ → Bool) (s : Text)
    → (suffix : Text) × All (λ c. p c ≡ true) suffix × (s ≡ drop_while_end p s ++ suffix)
unfolding drop_while_end
drop_while_end_lem p [] = ([], tt, refl)
drop_while_end_lem p (c ∷ s) = go (drop_while_end p s) (drop_while_end_lem p s)
  where
    go :
        (kept : Text)
        → (suffix : Text) × All (λ c. p c ≡ true) suffix × (s ≡ kept ++ suffix)
        → (suffix : Text) × All (λ c. p c ≡ true) suffix
          × (c ∷ s ≡ elim kept [ [] ↦ if p c then [] else c ∷ [] | d ∷ t ↦ c ∷ d ∷ t ] ++ suffix)
    go [] (suffix, all, e) = elim (Bool-cases (p c)) [
      | inl gone ↦ (c ∷ suffix, (gone, all), rw gone (ap (◌∷◌ c) e))
      | inr last ↦ (suffix, all, rw last (ap (◌∷◌ c) e))
    ]
    go (d ∷ t) (suffix, all, e) = (suffix, all, ap (◌∷◌ c) e)

-- The first byte, if there is one, fails the test.
abbrev pub HeadFails : (ℕ → Bool) → Text → Type 0
HeadFails p [] = Unit
HeadFails p (c ∷ s) = p c ≡ false

drop_while-HeadFails : (p : ℕ → Bool) (s : Text) → HeadFails p (drop_while p s)
unfolding drop_while
drop_while-HeadFails p [] = tt
drop_while-HeadFails p (c ∷ s) = elim (Bool-cases (p c)) [
  | inl gone ↦ rw gone (drop_while-HeadFails p s)
  | inr kept ↦ rw kept kept
]

drop_while_end-HeadFails :
    (p : ℕ → Bool) (s : Text) → HeadFails p s → HeadFails p (drop_while_end p s)
unfolding drop_while_end
drop_while_end-HeadFails p [] h = tt
drop_while_end-HeadFails p (c ∷ s) h = go (drop_while_end p s)
  where
    go :
        (kept : Text)
        → HeadFails p (elim kept [ [] ↦ if p c then [] else c ∷ [] | d ∷ t ↦ c ∷ d ∷ t ])
    go [] = rw h h
    go (d ∷ t) = h

-- Trimming takes spaces off both ends, and nothing else; the result begins with no space.
pub trim_lem :
    (s : Text)
    → (prefix suffix : Text) × All (λ c. isspace c ≡ true) prefix
      × All (λ c. isspace c ≡ true) suffix
      × (s ≡ prefix ++ (trim s ++ suffix))
      × HeadFails isspace (trim s)
unfolding trim
trim_lem s =
    let (prefix, spaces, e) = drop_while_lem isspace s in
    let (suffix, more, f) = drop_while_end_lem isspace (drop_while isspace s) in
    (
      prefix,
      suffix,
      spaces,
      more,
      e ∙ ap (◌++◌ prefix) f,
      drop_while_end-HeadFails isspace (drop_while isspace s) (drop_while-HeadFails isspace s),
    )

-- The mask of a prefix of `bits` bits, read back from its four octets.
pub mask : ℕ → ℕ
unfolding netmask_value octet
mask bits = elim (netmask_value bits) [
  | none ↦ 0
  | some v ↦ octet v 24 * 2 ^ 24 + octet v 16 * 2 ^ 16 + octet v 8 * 2 ^ 8 + octet v 0
]

-- Whether the equation on masks holds for every prefix of 1 to `most` bits.
masks_fit : ℕ → Bool
masks_fit zero = true
masks_fit (suc most) = masks_fit most && mask (suc most) + 2 ^ (32 - suc most) == 2 ^ 32

masks_fit_32 : masks_fit 32 ≡ true
unfolding masks_fit mask
masks_fit_32 = refl

and_right : (a b : Bool) → (a && b) ≡ true → b ≡ true
and_right a b h = ground arith

mask_of_fit :
    (most bits : ℕ)
    → masks_fit most ≡ true
    → bits < most
    → mask (suc bits) + 2 ^ (32 - suc bits) ≡ 2 ^ 32
unfolding masks_fit
mask_of_fit zero bits fit small = absurd (omega arith)
mask_of_fit (suc most) bits fit small = elim (Bool-cases (bits == most)) [
  | inl here ↦
      let last : (mask (suc most) + 2 ^ (32 - suc most) == 2 ^ 32) ≡ true =
        and_right (masks_fit most) _ fit in
      rw ((nat_beq_iff bits most).0 here) ((nat_beq_iff _ _).0 last)
  | inr before ↦ mask_of_fit most bits (ground arith) (ground arith)
]

-- For a prefix of 1 to 32 bits the four octets stand for the number whose upper `bits` bits are
-- set, and no others.
pub mask_lem : (bits : ℕ) → 1 ≤ bits → bits ≤ 32 → mask bits + 2 ^ (32 - bits) ≡ 2 ^ 32
mask_lem zero l h = absurd (omega arith)
mask_lem (suc b) l h = mask_of_fit 32 b masks_fit_32 (omega arith)
