-- ===== src/Dbus/Criteria.antt =====
-- Which objects a search accepts (src/core/entity/dbus_query.cpp).
use obmc_yadro_webapp.Prelude.{
  ℕ, ◌≤◌, ◌≡◌, ◌↔◌, ◌⊎◌, Bool, true, false, Option, none, some, List, [], ◌∷◌, ◌==◌, nat_eq,
  text_eq, text_beq_iff, any_of, arith,
}
use obmc_yadro_webapp.Prelude.Int.{ℤ, pos, negsuc}
use obmc_yadro_webapp.Prelude.Text.{Text, starts_with}
use obmc_yadro_webapp.Utils.{count_extra_segments_of_path}
use obmc_yadro_webapp.Dbus.{
  DBusObjectEndpoint, other_service, find_object_check_path, too_deep, shares, find_object_check,
}

-- An entry of the list passes the test.
abbrev pub Some : (Text → Type 0) → List Text → Type 0
Some P [] = ⊥
Some P (x ∷ xs) = P x ⊎ Some P xs

-- Only another service than the one asked for is refused: an answer may leave the service out.
abbrev pub IsService : Option Text → Option Text → Type 0
IsService (some given) (some wanted) = given ≡ wanted
IsService _ _ = Unit

abbrev pub IsWithinDepth : ℤ → ℕ → Type 0
IsWithinDepth (pos depth) segments = (depth ≡ 0) ⊎ (segments ≤ depth)
IsWithinDepth (negsuc depth) segments = Unit

any_of_iff :
    (p : Text → Bool) (P : Text → Type 0) (xs : List Text)
    → ((x : Text) → (p x ≡ true) ↔ P x)
    → (any_of p xs ≡ true) ↔ Some P xs
any_of_iff p P [] h = ground arith
any_of_iff p P (x ∷ xs) h = ground (arith, h x, any_of_iff p P xs h)

shares_iff :
    (interfaces criteria : List Text)
    → (shares interfaces criteria ≡ true) ↔ Some (λ i. Some (λ c. i ≡ c) criteria) interfaces
shares_iff interfaces criteria =
    any_of_iff (λ i. any_of (λ c. i == c) criteria) (λ i. Some (λ c. i ≡ c) criteria) interfaces
      (λ i. any_of_iff (λ c. i == c) (λ c. i ≡ c) criteria (λ c. text_beq_iff i c))

other_service_iff :
    (given wanted : Option Text) → (other_service given wanted ≡ false) ↔ IsService given wanted
other_service_iff none wanted = ground arith
other_service_iff (some g) none = ground arith
other_service_iff (some g) (some w) = ground (arith, text_beq_iff g w)

too_deep_iff :
    (depth : ℤ) (segments : ℕ) → (too_deep depth segments ≡ false) ↔ IsWithinDepth depth segments
too_deep_iff (pos d) segments = ground arith
too_deep_iff (negsuc d) segments = ground arith

-- A search accepts an object exactly if its service is not another one than the service asked for,
-- its path begins with the path asked for and is not deeper behind it than the depth allows, where
-- a depth of 0 or below allows all, and it has one of the interfaces asked for.
pub find_object_check_iff :
    (criteria : DBusObjectEndpoint) (object_path : Text) (interfaces : List Text)
    (service : Option Text)
    → (find_object_check criteria object_path interfaces service ≡ true) ↔ (
        IsService service criteria.service
        × (starts_with criteria.path object_path ≡ true)
        × IsWithinDepth criteria.depth (count_extra_segments_of_path criteria.path object_path)
        × Some (λ i. Some (λ c. i ≡ c) criteria.interfaces) interfaces)
unfolding find_object_check find_object_check_path
find_object_check_iff criteria object_path interfaces service = ground (
  arith,
  other_service_iff service criteria.service,
  too_deep_iff criteria.depth (count_extra_segments_of_path criteria.path object_path),
  shares_iff interfaces criteria.interfaces,
)
