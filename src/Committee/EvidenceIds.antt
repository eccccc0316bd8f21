-- ===== src/Committee/EvidenceIds.antt =====
-- The ids of the committee's evidence (backend/app/committee/evidence.py, models.py).
use alpha_council.Base.{
  String, ◌≡◌, refl, Bool, true, false, not, ◌&&◌, Option, none, some, List, [], ◌∷◌, All, find,
  str_eq, str_eq_iff, arith,
}
use alpha_council.Decimal.{Decimal}
use alpha_council.Discovery.Models.{Candidate}
use alpha_council.Committee.Models.{EvidenceItem, get_evidence}
use alpha_council.Committee.Evidence.{
  Format, Slot, with_item, items_of, slots_of, build_evidence_packet,
}

unfoldable is_fresh : String → List Slot → Bool
is_fresh id [] = true
is_fresh id (s ∷ slots) = not (str_eq id s.id) && is_fresh id slots

unfoldable are_distinct : List Slot → Bool
are_distinct [] = true
are_distinct (s ∷ slots) = is_fresh s.id slots && are_distinct slots

abbrev IsOther : String → EvidenceItem → Type 0
IsOther id item = str_eq id item.id ≡ false

abbrev IsFound : List EvidenceItem → EvidenceItem → Type 0
IsFound items item = find (λ i. str_eq i.id item.id) items ≡ some item

is_fresh-IsOther :
    (id : String) (slots : List Slot) → is_fresh id slots ≡ true → All (IsOther id) (items_of slots)
unfolding is_fresh items_of
is_fresh-IsOther id [] h = tt
is_fresh-IsOther id (s ∷ slots) h = ground (arith, is_fresh-IsOther id slots)

-- What is found in a list is found behind an item with another id.
IsFound-behind :
    (first : EvidenceItem) (items found : List EvidenceItem)
    → All (IsOther first.id) found
    → All (IsFound items) found
    → All (IsFound (first ∷ items)) found
IsFound-behind first items [] h k = tt
IsFound-behind first items (x ∷ found) (h, hs) (k, ks) =
    (rw h k, IsFound-behind first items found hs ks)

with_item-IsFound :
    (s : Slot) (value : Option String) (items : List EvidenceItem)
    → All (IsOther s.id) items
    → All (IsFound items) items
    → All (IsFound (with_item s value items)) (with_item s value items)
with_item-IsFound s none items h k = k
with_item-IsFound s (some value) items h k =
    let item : EvidenceItem = record {
      id = s.id;
      category = s.category;
      label = s.label;
      value = value;
      unit = s.unit;
      source = s.source;
    } in
    (rw ((str_eq_iff s.id s.id).1 refl) refl, IsFound-behind item items items h k)

items_of-IsFound :
    (slots : List Slot)
    → are_distinct slots ≡ true
    → All (IsFound (items_of slots)) (items_of slots)
unfolding are_distinct items_of
items_of-IsFound [] h = tt
items_of-IsFound (s ∷ slots) h =
    with_item-IsFound s s.value (items_of slots) (is_fresh-IsOther s.id slots (ground arith))
      (items_of-IsFound slots (ground arith))

slots_of-distinct :
    {D : Type 0} ⦃d : Decimal D⦄ (fmt : Format D) (c : Candidate D)
    → are_distinct (slots_of fmt c) ≡ true
unfolding are_distinct is_fresh slots_of
slots_of-distinct fmt c = refl

-- Each item of the evidence of any candidate is the one that get_evidence finds by its id.
pub get_evidence-build_evidence_packet :
    {D : Type 0} ⦃d : Decimal D⦄ (fmt : Format D) (c : Candidate D)
    → All
        (λ item. get_evidence (build_evidence_packet fmt c) item.id ≡ some item)
        (build_evidence_packet fmt c).evidence
unfolding get_evidence build_evidence_packet
get_evidence-build_evidence_packet fmt c =
    items_of-IsFound (slots_of fmt c) (slots_of-distinct fmt c)
