-- ===== src/Hid/Map/Joined.antt =====
-- The report descriptor after another one, as a USB host gets the two from the AVR.
use mathlib.Core.List.{append_assoc}
use mymouse.Base.{
  ℕ, ◌≡◌, refl, ◌∙◌, ap, Bool, true, false, not, Option, none, ◌&&◌, if◌then◌else◌, List, [], ◌∷◌,
  ◌++◌, ◌==◌, Bool-cases, inl, inr, arith,
}
use mymouse.Hid.Map.{hid_report_map, hid_report_id}
use mymouse.Hid.Map.Host.{
  Item, Reader, finish, read_byte, read_bytes, start, items_of, Host, take_items, blank, host_of,
  read_report,
}
use mymouse.Hid.Map.Fields.{the_fields, map_fields, map_shape}

append_nil : (xs : List Item) → xs ++ [] ≡ xs
append_nil [] = refl
append_nil (x ∷ xs) = ap (λ (l : List Item). x ∷ l) (append_nil xs)

read_bytes-append :
    (r : Reader) (xs ys : List ℕ) → read_bytes r (xs ++ ys) ≡ read_bytes (read_bytes r xs) ys
unfolding read_bytes
read_bytes-append r [] ys = refl
read_bytes-append r (x ∷ xs) ys = read_bytes-append (read_byte r x) xs ys

take_items-append :
    (xs ys : List Item) (h : Host) → take_items (xs ++ ys) h ≡ take_items ys (take_items xs h)
unfolding take_items
take_items-append [] ys h = refl
take_items-append (x ∷ xs) ys h = take_items-append xs ys _

-- The reader with other items before those that it has read.
abbrev after : List Item → Reader → Reader
after items r = record r { done = items ++ r.done }

finish-after :
    (items : List Item) (i : Item) (missing : ℕ) (done : List Item)
    → finish i missing (items ++ done) ≡ after items (finish i missing done)
finish-after items i n done = elim (Bool-cases (n == 0)) [
  | inl e ↦ rw e (
      ap (λ (l : List Item). record { item = i; missing = n; done = l })
        (append_assoc items done (i ∷ [])))
  | inr e ↦ rw e refl
]

read_byte-after :
    (items : List Item) (r : Reader) (b : ℕ)
    → read_byte (after items r) b ≡ after items (read_byte r b)
read_byte-after items r b = elim (Bool-cases (r.missing == 0)) [
  | inl e ↦ rw e (finish-after items _ _ r.done)
  | inr e ↦ rw e (finish-after items _ _ r.done)
]

read_bytes-after :
    (items : List Item) (r : Reader) (bs : List ℕ)
    → read_bytes (after items r) bs ≡ after items (read_bytes r bs)
unfolding read_bytes
read_bytes-after items r [] = refl
read_bytes-after items r (b ∷ bs) =
    rw (read_byte-after items r b) (read_bytes-after items (read_byte r b) bs)

-- The descriptor ends where an item ends, and a host finds no controls and no padding in it. The
-- global items may be left with any values.
pub record IsPreamble (descriptor : List ℕ) : Type 0 where
  pub whole_items : (read_bytes start descriptor).missing ≡ 0
  pub no_usages : (host_of descriptor).usages ≡ []
  pub no_usage_min : (host_of descriptor).usage_min ≡ 0
  pub no_bits : (host_of descriptor).offset ≡ 0
  pub no_fields : (host_of descriptor).fields ≡ []

-- The items of the report descriptor do not depend on the item before them.
items_of-map :
    (i : Item)
    → (read_bytes (record { item = i; missing = 0; done = [] }) hid_report_map).done
      ≡ items_of hid_report_map
unfolding read_bytes items_of hid_report_map
items_of-map i = refl

-- They set all the global items that they need.
map_after :
    (h : Host)
    → h.usages ≡ []
    → h.usage_min ≡ 0
    → h.offset ≡ 0
    → h.fields ≡ []
    → let h' = take_items (items_of hid_report_map) h in
      (h'.fields ≡ the_fields)
      × (h'.offset ≡ 40)
      × (h'.report_id ≡ hid_report_id)
      × (h'.reserved_id ≡ h.reserved_id)
unfolding take_items items_of hid_report_map
map_after h u m o f =
    let e : h ≡ record h { usages = []; usage_min = 0; offset = 0; fields = [] } =
      ground (arith, u, m, o, f) in
    rw e (refl, refl, refl, refl)

items_of-append :
    (descriptor : List ℕ)
    → (read_bytes start descriptor).missing ≡ 0
    → items_of (descriptor ++ hid_report_map) ≡ items_of descriptor ++ items_of hid_report_map
unfolding items_of
items_of-append descriptor whole =
    let r = read_bytes start descriptor in
    let r₀ : Reader = record { item = r.item; missing = 0; done = [] } in
    let e : r ≡ after r.done r₀ = ground (arith, whole, append_nil r.done) in
    ap (λ (s : Reader). s.done) (read_bytes-append start descriptor hid_report_map)
    ∙ ap (λ (s : Reader). (read_bytes s hid_report_map).done) e
    ∙ ap (λ (s : Reader). s.done) (read_bytes-after r.done r₀ hid_report_map)
    ∙ ap (λ (l : List Item). r.done ++ l) (items_of-map r.item)

-- The host that reads the two finds the controls of the second one only.
host_of-joined :
    (descriptor : List ℕ)
    → IsPreamble descriptor
    → let h = host_of (descriptor ++ hid_report_map) in
      (h.fields ≡ the_fields)
      × (h.offset ≡ 40)
      × (h.report_id ≡ hid_report_id)
      × (h.reserved_id ≡ (host_of descriptor).reserved_id)
unfolding host_of
host_of-joined descriptor p =
    let q = map_after (host_of descriptor) p.no_usages p.no_usage_min p.no_bits p.no_fields in
    rw
      (
        items_of-append descriptor p.whole_items,
        take_items-append (items_of descriptor) (items_of hid_report_map) blank,
      )
      q

strict_lem :
    {A : Type 0} (s z b c : Bool) (v : Option A)
    → (if not (s && z) && b && c then v else none)
      ≡ (if s && z then none else (if not (s && false) && b && c then v else none))
strict_lem true true b c v = refl
strict_lem true false b c v = refl
strict_lem false z b c v = refl

-- A packet is read as by the report descriptor alone, unless the host is strict and the descriptor
-- before it has the reserved id.
pub read_report-joined :
    (strict : Bool) (descriptor packet : List ℕ)
    → IsPreamble descriptor
    → read_report strict (descriptor ++ hid_report_map) packet ≡ (
        if strict && (host_of descriptor).reserved_id
        then none
        else read_report strict hid_report_map packet)
unfolding read_report
read_report-joined strict descriptor [] p = ground arith
read_report-joined strict descriptor (id ∷ packet) p =
    let (f, o, i, z) = host_of-joined descriptor p in
    rw (f, o, i, z, map_fields, map_shape.0, map_shape.1, map_shape.2)
      (strict_lem strict (host_of descriptor).reserved_id _ _ _)
