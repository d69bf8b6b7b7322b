-- ===== src/Json.antt =====
-- JSON values as the program sees them through nlohmann::json. Reading and printing JSON text is
-- the library's part and is not modelled.
use obmc_yadro_webapp.Prelude.{ℕ, suc, ◌≡◌, refl, ap, Bool, List, [], ◌∷◌}
use obmc_yadro_webapp.Prelude.Text.{Text, to_string}
use obmc_yadro_webapp.Prelude.Int.{ℤ}

mutual
  -- A floating number is kept as its text: the program never computes with one.
  pub data Json : Type 0 where
    null : Json
    boolean : Bool → Json
    int : ℤ → Json
    float : Text → Json
    str : Text → Json
    arr : Items → Json
    obj : Fields → Json

  pub data Items : Type 0 where
    nil : Items
    cons : Json → Items → Items

  pub data Fields : Type 0 where
    end : Fields
    field : Text → Json → Fields → Fields

abbrev pub item_list : Items → List Json
item_list nil = []
item_list (cons v vs) = v ∷ item_list vs

abbrev pub field_list : Fields → List (Text × Json)
field_list end = []
field_list (field k v fs) = (k, v) ∷ field_list fs

abbrev pub to_items : List Json → Items
to_items [] = nil
to_items (v ∷ vs) = cons v (to_items vs)

abbrev pub to_fields : List (Text × Json) → Fields
to_fields [] = end
to_fields ((k, v) ∷ fs) = field k v (to_fields fs)

-- The elements of an array under their indices, as `items()` gives them.
numbered : ℕ → Items → List (Text × Json)
numbered n nil = []
numbered n (cons v vs) = (to_string n, v) ∷ numbered (suc n) vs

-- `items()`: a value that is no container has one item, under the empty key.
unfoldable pub items : Json → List (Text × Json)
unfolding numbered
items null = []
items (arr vs) = numbered 0 vs
items (obj fs) = field_list fs
items v = ([], v) ∷ []

-- `begin()` to `end()`: the values alone.
unfoldable pub values : Json → List Json
values null = []
values (arr vs) = item_list vs
values (obj end) = []
values (obj (field k v fs)) = v ∷ values (obj fs)
values v = v ∷ []

pub field_list-to_fields : (fs : List (Text × Json)) → field_list (to_fields fs) ≡ fs
field_list-to_fields [] = refl
field_list-to_fields ((k, v) ∷ fs) = ap (◌∷◌ (k, v)) (field_list-to_fields fs)

pub item_list-to_items : (vs : List Json) → item_list (to_items vs) ≡ vs
item_list-to_items [] = refl
item_list-to_items (v ∷ vs) = ap (◌∷◌ v) (item_list-to_items vs)
