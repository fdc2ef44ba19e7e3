-- ===== src/Trucks/Photos.antt =====
-- The photos of a truck (`TruckPhoto` in trucks/models.py, `save_truck_photos` and the pages of
-- trucks/views.py). Other fields of a page's form are only asked whether they are valid.
use truck.Base.{
  ℕ, suc, ◌<◌, ◌≡◌, refl, Bool, true, false, not, ◌&&◌, ◌||◌, Option, none, some, List, [], ◌∷◌,
  arith, ltb, ◌==◌, if◌then◌else◌, select, count, All, All-mono, Bool-cases, inl, inr,
}
use truck.Validators.{Upload, validate_image_file}

pub record TruckPhoto : Type 0 where
  pub pk : ℕ
  pub truck : ℕ
  pub image : Upload
  pub order : ℕ
  pub uploaded_at : ℕ

-- The table and the next key.
pub record Photos : Type 0 where
  pub rows : List TruckPhoto
  pub next_photo : ℕ

abbrev pub of_truck : ℕ → TruckPhoto → Bool
of_truck truck p = p.truck == truck

-- `ordering = ['order', 'uploaded_at']`
abbrev pub precedes : TruckPhoto → TruckPhoto → Bool
precedes p q = ltb p.order q.order || (p.order == q.order && ltb p.uploaded_at q.uploaded_at)

abbrev pub foremost : TruckPhoto → Option TruckPhoto → Option TruckPhoto
foremost p none = some p
foremost p (some q) = if precedes q p then some q else some p

-- The first photo in that order.
unfoldable pub cover : List TruckPhoto → Option TruckPhoto
cover [] = none
cover (p ∷ ps) = foremost p (cover ps)

-- A photo of the gallery, the truck's own photo, or none.
pub data CoverPhoto : Type 0 where
  gallery : TruckPhoto → CoverPhoto
  legacy no_photo : CoverPhoto

unfoldable pub get_cover_photo : ℕ → Bool → List TruckPhoto → CoverPhoto
get_cover_photo truck own rows = elim (cover (select (of_truck truck) rows)) [
  | some p ↦ gallery p
  | none ↦ if own then legacy else no_photo
]

abbrev pub all_valid : List Upload → Bool
all_valid [] = true
all_valid (u ∷ us) = validate_image_file (some u) && all_valid us

-- The loop over the files, from an order on.
unfoldable pub append_photos : ℕ → ℕ → ℕ → List Upload → Photos → Photos
append_photos truck now order [] db = db
append_photos truck now order (u ∷ us) db = append_photos truck now (suc order) us (record {
  rows =
      record { pk = db.next_photo; truck = truck; image = u; order = order; uploaded_at = now }
      ∷ db.rows;
  next_photo = suc db.next_photo;
})

-- `save_truck_photos`, and whether it returns: a file that is refused raises before anything is saved.
unfoldable pub save_truck_photos : ℕ → ℕ → List Upload → Photos → Bool × Photos
unfolding append_photos
save_truck_photos truck now files db =
    if all_valid files
    then (true, append_photos truck now (count (of_truck truck) db.rows) files db)
    else (false, db)

abbrev pub listed : ℕ → List ℕ → Bool
listed pk [] = false
listed pk (k ∷ ks) = if pk == k then true else listed pk ks

-- `TruckUpdateView.post`, for ticked keys that are numbers: the photos that are ticked are deleted before the new ones are saved.
unfoldable pub update_photos : Bool → ℕ → ℕ → List ℕ → List Upload → Photos → Bool × Photos
update_photos form_valid truck now delete_ids files db =
    if form_valid && all_valid files
    then save_truck_photos truck now files (record db {
      rows = select (λ p. not (of_truck truck p && listed p.pk delete_ids)) db.rows;
    })
    else (false, db)

-- `TruckCreateView.post`: a new truck has no photos yet.
unfoldable pub create_photos : Bool → ℕ → ℕ → List Upload → Photos → Bool × Photos
create_photos form_valid truck now files db =
    if form_valid && all_valid files then save_truck_photos truck now files db else (false, db)

-- The truck's photos are numbered below their count.
abbrev pub IsBelow : ℕ → ℕ → TruckPhoto → Type 0
IsBelow truck n p = of_truck truck p ≡ true → p.order < n

abbrev pub IsNumbered : ℕ → List TruckPhoto → Type 0
IsNumbered truck rows = All (IsBelow truck (count (of_truck truck) rows)) rows

append-IsNumbered :
    (truck now order : ℕ) (files : List Upload) (db : Photos)
    → order ≡ count (of_truck truck) db.rows
    → IsNumbered truck db.rows
    → IsNumbered truck (append_photos truck now order files db).rows
unfolding append_photos
append-IsNumbered truck now order [] db e h = h
append-IsNumbered truck now order (u ∷ us) db e h =
    let self : (truck == truck) ≡ true = ground arith in
    let p : TruckPhoto = record {
      pk = db.next_photo;
      truck = truck;
      image = u;
      order = order;
      uploaded_at = now;
    } in
    let more : count (of_truck truck) (p ∷ db.rows) ≡ suc (count (of_truck truck) db.rows) =
      rw self refl in
    append-IsNumbered truck now (suc order) us
      (record { rows = p ∷ db.rows; next_photo = suc db.next_photo }) (omega (arith, e, more))
      (
        (λ own. omega (arith, e, more)),
        All-mono (IsBelow truck (count (of_truck truck) db.rows))
            (IsBelow truck (count (of_truck truck) (p ∷ db.rows)))
            (λ q below own. omega (arith, below own, more)) db.rows h,
      )

-- Photos that are only added keep the truck's photos numbered below their count, so that the next one
-- gets a greater order than all.
pub save-IsNumbered :
    (truck now : ℕ) (files : List Upload) (db : Photos)
    → IsNumbered truck db.rows
    → IsNumbered truck (save_truck_photos truck now files db).1.rows
unfolding save_truck_photos
save-IsNumbered truck now files db h = elim (Bool-cases (all_valid files)) [
  | inl t ↦ rw t (append-IsNumbered truck now (count (of_truck truck) db.rows) files db refl h)
  | inr n ↦ rw n h
]
