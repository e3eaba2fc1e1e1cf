-- ===== src/Fat/Dir/Listing.antt =====
-- What fat_op_readdir shows of a new directory entry.
use zakos.Common.{
  ℕ, ◌≤◌, ◌<◌, ◌≡◌, ◌≢◌, refl, sym, ap, ◌∙◌, inl, inr, false, List, [], ◌∷◌, map, ◌==◌,
  if◌then◌else◌, update, length, Result, ok, err, Errno, enoent, eagain, arith,
}
use zakos.Fat.Chain.{attr2fat, fat2attr}
use zakos.Fat.Names.{dot, fill_fname, entry_name, shown_name}
use zakos.Fat.Names.Trim.{Solid, joined}
use zakos.Fat.Names.Shown.{base_of, suffix_of, entry_name-shown_name}
use zakos.Fat.Entries.{bytes_from, fname_of, extension_of, cluster_of, size_of, over}
use zakos.Fat.Dir.{ListedFile, list_entry, new_entry}
use zakos.Fat.Dir.Fields.{
  bytes_from-same, bytes_from-behind, bytes_from-over, over-behind, length-fill_fname,
  length-skip_dot, entry_name-fields,
}

-- What fat_op_readdir makes of the fields of an entry.
abbrev listing : ℕ → List ℕ → List ℕ → ℕ → ℕ → ℕ → ℕ → Result ListedFile
listing first_byte fname extension attr size first idx =
    let shown : Result ListedFile = elim (shown_name fname extension) [
      | err c ↦ err c
      | ok name ↦
          ok (record { name = name; attr = fat2attr attr; size = size; first = first; idx = idx })
    ] in
    if first_byte == 0x00 then err enoent else if first_byte == 0xE5 then err eagain else shown

list_entry-listing :
    (e : ℕ → ℕ) (idx : ℕ)
    → list_entry e idx
      ≡ listing (e 0) (fname_of e) (extension_of e) (e 11) (size_of e) (cluster_of e) idx
unfolding list_entry
list_entry-listing e idx = refl

-- Only the bytes of an entry matter.
pub list_entry-same :
    (e g : ℕ → ℕ) (idx : ℕ) → ((j : ℕ) → j < 32 → e j ≡ g j) → list_entry e idx ≡ list_entry g idx
list_entry-same e g idx s =
    let fname = bytes_from-same e g 0 8 32 (omega arith) s in
    let extension = bytes_from-same e g 8 3 32 (omega arith) s in
    let at = λ (j : ℕ) (h : j < 32). s j h in
    let size : size_of e ≡ size_of g =
      omega (
        arith,
        at 28 (omega arith),
        at 29 (omega arith),
        at 30 (omega arith),
        at 31 (omega arith),
      ) in
    let cluster : cluster_of e ≡ cluster_of g =
      omega (arith, at 26 (omega arith), at 27 (omega arith)) in
    list_entry-listing e idx
    ∙ ap (λ z. listing z (fname_of e) (extension_of e) (e 11) (size_of e) (cluster_of e) idx)
        (at 0 (omega arith))
    ∙ ap (λ z. listing (g 0) z (extension_of e) (e 11) (size_of e) (cluster_of e) idx) fname
    ∙ ap (λ z. listing (g 0) (fname_of g) z (e 11) (size_of e) (cluster_of e) idx) extension
    ∙ ap (λ z. listing (g 0) (fname_of g) (extension_of g) z (size_of e) (cluster_of e) idx)
        (at 11 (omega arith))
    ∙ ap (λ z. listing (g 0) (fname_of g) (extension_of g) (g 11) z (cluster_of e) idx) size
    ∙ ap (λ z. listing (g 0) (fname_of g) (extension_of g) (g 11) (size_of g) z idx) cluster
    ∙ sym (list_entry-listing g idx)

-- The file that a new entry stands for.
abbrev pub new_file : (ℕ → ℕ) → List ℕ → ℕ → ℕ → ListedFile
new_file up name attr idx = record {
  name = joined (map up (base_of name)) (map up (suffix_of name));
  attr = fat2attr (attr2fat attr);
  size = 0;
  first = 0;
  idx = idx;
}

module _ (f e : List ℕ) (attr : ℕ) (eight : length f ≡ 8) (three : length e ≡ 3) where
  abbrev blank_from : ℕ → ℕ
  blank_from = over e 8 (update (λ i. 0) 11 (attr2fat attr))

  zero_at : (j : ℕ) → 12 ≤ j → new_entry (f, e) attr j ≡ 0
  zero_at j h =
      over-behind f blank_from 0 j (omega (arith, eight, h))
      ∙ over-behind e (update (λ i. 0) 11 (attr2fat attr)) 8 j (omega (arith, three, h))
      ∙ ground (arith, h)

  new_fname : fname_of (new_entry (f, e) attr) ≡ f
  new_fname = ap (bytes_from (new_entry (f, e) attr) 0) (sym eight) ∙ bytes_from-over f blank_from 0

  new_extension : extension_of (new_entry (f, e) attr) ≡ e
  new_extension =
      bytes_from-behind f blank_from 0 8 3 (omega (arith, eight))
      ∙ ap (bytes_from blank_from 8) (sym three)
      ∙ bytes_from-over e (update (λ i. 0) 11 (attr2fat attr)) 8

  new_attr : new_entry (f, e) attr 11 ≡ attr2fat attr
  new_attr =
      over-behind f blank_from 0 11 (omega (arith, eight))
      ∙ over-behind e (update (λ i. 0) 11 (attr2fat attr)) 8 11 (omega (arith, three))
      ∙ ground arith

  new_listing :
      (idx : ℕ)
      → list_entry (new_entry (f, e) attr) idx
        ≡ listing (new_entry (f, e) attr 0) f e (attr2fat attr) 0 0 idx
  new_listing idx =
      let g = new_entry (f, e) attr in
      let size : size_of g ≡ 0 = omega (
        arith,
        zero_at 28 (omega arith),
        zero_at 29 (omega arith),
        zero_at 30 (omega arith),
        zero_at 31 (omega arith),
      ) in
      let cluster : cluster_of g ≡ 0 =
        omega (arith, zero_at 26 (omega arith), zero_at 27 (omega arith)) in
      list_entry-listing g idx
      ∙ ap (λ z. listing (g 0) z (extension_of g) (g 11) (size_of g) (cluster_of g) idx) new_fname
      ∙ ap (λ z. listing (g 0) f z (g 11) (size_of g) (cluster_of g) idx) new_extension
      ∙ ap (λ z. listing (g 0) f e z (size_of g) (cluster_of g) idx) new_attr
      ∙ ap (λ z. listing (g 0) f e (attr2fat attr) z (cluster_of g) idx) size
      ∙ ap (λ z. listing (g 0) f e (attr2fat attr) 0 z idx) cluster

-- The first character of a name that does not start with '.'.
first_character :
    (up : ℕ → ℕ) (c : ℕ) (name f e : List ℕ) (attr : ℕ)
    → entry_name up (c ∷ name) ≡ ok (f, e)
    → c ≢ dot
    → new_entry (f, e) attr 0 ≡ up c
unfolding fill_fname
first_character up c name f e attr h no_dot =
    let g = over e 8 (update (λ i. 0) 11 (attr2fat attr)) in
    let plain : (c == dot) ≡ false = ground (arith, no_dot) in
    let head : (fill_fname up 8 (c ∷ name)).0 ≡ up c ∷ (fill_fname up 7 name).0 = rw plain refl in
    ap (λ z. over z 0 g 0) ((entry_name-fields up (c ∷ name) f e h).0 ∙ head) ∙ ground arith

-- What the name of a new entry is shown as.
name_shown :
    (up : ℕ → ℕ) (name f e : List ℕ)
    → entry_name up name ≡ ok (f, e)
    → base_of name ≢ []
    → Solid (map up name)
    → shown_name f e ≡ ok (joined (map up (base_of name)) (map up (suffix_of name)))
name_shown up name f e h front solid =
    let shows : Result (List ℕ × List ℕ) → Result (List ℕ) =
      λ r. elim r [ ok q ↦ shown_name q.0 q.1 | err c ↦ err c ] in
    elim (entry_name-shown_name up name front solid) [
      | inl (short, few, (g, k, run, shown)) ↦ ap shows (sym h ∙ run) ∙ shown
      | inr (long, refused) ↦ absurd (not_both (sym h ∙ refused))
    ]
  where
    not_both : {p : List ℕ × List ℕ} {c : Errno} → ok p ≢ err c
    not_both q = absurd cc

-- The name: it does not start with '.', and toupper makes no space of a character, and neither 0 nor
-- 0xE5 of the first one.
pub record IsName (up : ℕ → ℕ) (c : ℕ) (name : List ℕ) : Type 0 where
  pub no_dot : c ≢ dot
  pub solid : Solid (map up (c ∷ name))
  pub not_last : up c ≢ 0x00
  pub not_deleted : up c ≢ 0xE5

base-first : (c : ℕ) (name : List ℕ) → c ≢ dot → base_of (c ∷ name) ≡ c ∷ base_of name
unfolding base_of
base-first c name no_dot = let plain : (c == dot) ≡ false = ground (arith, no_dot) in rw plain refl

has_base : (c : ℕ) (name : List ℕ) → c ≢ dot → base_of (c ∷ name) ≢ []
has_base c name no_dot = λ q. omega (arith, ap length (sym (base-first c name no_dot) ∙ q))

-- A name that is short enough is accepted.
pub entry_name-accepts :
    (up : ℕ → ℕ) (c : ℕ) (name : List ℕ)
    → IsName up c name
    → length (base_of (c ∷ name)) ≤ 8
    → length (suffix_of (c ∷ name)) ≤ 3
    → (f : List ℕ) × (e : List ℕ) × (entry_name up (c ∷ name) ≡ ok (f, e))
entry_name-accepts up c name v short few =
    elim (entry_name-shown_name up (c ∷ name) (has_base c name v.no_dot) v.solid) [
      | inl (_, _, (f, e, run, _)) ↦ (f, e, run)
      | inr (inl long, _) ↦ absurd (omega (arith, long, short))
      | inr (inr long, _) ↦ absurd (omega (arith, long, few))
    ]

pub list_entry-new_entry :
    (up : ℕ → ℕ) (c : ℕ) (name f e : List ℕ) (attr idx : ℕ)
    → IsName up c name
    → entry_name up (c ∷ name) ≡ ok (f, e)
    → list_entry (new_entry (f, e) attr) idx ≡ ok (new_file up (c ∷ name) attr idx)
unfolding base_of
list_entry-new_entry up c name f e attr idx v h =
    let (same_f, same_e) = entry_name-fields up (c ∷ name) f e h in
    let eight : length f ≡ 8 = ap length same_f ∙ length-fill_fname up 8 (c ∷ name) in
    let three : length e ≡ 3 =
      ap length same_e ∙ length-skip_dot up (fill_fname up 8 (c ∷ name)).1 in
    let front = has_base c name v.no_dot in
    let not_last : (up c == 0x00) ≡ false = ground (arith, v.not_last) in
    let not_deleted : (up c == 0xE5) ≡ false = ground (arith, v.not_deleted) in
    new_listing f e attr eight three idx
    ∙ ap (λ z. listing z f e (attr2fat attr) 0 0 idx)
        (first_character up c name f e attr h v.no_dot)
    ∙ rw (not_last, not_deleted, name_shown up (c ∷ name) f e h front v.solid) refl
