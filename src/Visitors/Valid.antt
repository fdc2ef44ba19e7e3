-- ===== src/Visitors/Valid.antt =====
-- The pages of the visitors keep the table valid (visitors/models.py, visitors/forms.py).
use truck.Base.{
  ℕ, suc, ◌<◌, ◌≡◌, refl, sym, ap, ◌∙◌, Bool, true, Option, none, some, inl, inr, List, [], ◌∷◌,
  arith, ==_iff, Bool-cases, Option-cases, Text, strip, truthy, select, first, update, count,
  count-update_eq, count-update_one, count-cons_one, All-mono, All-update,
}
use truck.Validators.{Upload}
use truck.Visitors.{
  Visitor, VisitorForm, Db, has_pk, phone_is, cpf_is, filled, name_is, is_valid, create, edit,
  Request, new_visitor, edit_visitor, save, save_all,
}
use truck.Visitors.Accepted.{
  IsDocumented, HasCpf, IsValid, Accepted, visitors_below, is_valid-Accepted, free_name, free_phone,
  free_cpf,
}

module _ (fold : Text → Text) (decimal : ℕ → Option ℕ) (is_image : Upload → Bool) where
  added-IsValid :
      (v : Visitor) (db : Db)
      → v.pk ≡ db.next_visitor
      → Accepted fold decimal is_image none v db.visitors
      → IsValid fold decimal db
      → IsValid fold decimal
          (record { visitors = v ∷ db.visitors; next_visitor = suc db.next_visitor })
  added-IsValid v db k a ok = record {
    one_key = λ j.
        count-cons_one (has_pk j) v db.visitors
          (λ h.
            ap (λ i. count (has_pk i) db.visitors) (sym ((==_iff v.pk j).0 h) ∙ k)
            ∙ visitors_below db.next_visitor db.visitors ok.keys_below)
          (ok.one_key j);
    one_name = λ t.
        count-cons_one (name_is fold t) v db.visitors
          (free_name fold decimal is_image none v db.visitors t a) (ok.one_name t);
    one_phone = λ t u.
        count-cons_one (phone_is t) v db.visitors
          (free_phone fold decimal is_image none v db.visitors t a u) (ok.one_phone t u);
    one_cpf = λ t u.
        count-cons_one (cpf_is t) v db.visitors
          (free_cpf fold decimal is_image none v db.visitors t a u) (ok.one_cpf t u);
    keys_below = (
      omega (arith, k),
      All-mono (λ x. x.pk < db.next_visitor) (λ x. x.pk < suc db.next_visitor)
          (λ x h. omega (arith, h)) db.visitors ok.keys_below,
    );
    all_named = (a.named, ok.all_named);
    all_documented = (a.documents, ok.all_documented);
    all_cpf = (a.has_cpf, ok.all_cpf);
  }

  edited-IsValid :
      (form : VisitorForm) (pk : ℕ) (db : Db)
      → ((k : ℕ) → Accepted fold decimal is_image (some pk) (filled form k) db.visitors)
      → IsValid fold decimal db
      → IsValid fold decimal
          (record db { visitors = update (has_pk pk) (λ r. filled form r.pk) db.visitors })
  edited-IsValid form pk db a ok =
      let g : Visitor → Visitor = λ r. filled form r.pk in
      let v = filled form 0 in
      record {
        one_key = λ j.
            rw (count-update_eq (has_pk j) (has_pk pk) g (λ r. refl) db.visitors) (ok.one_key j);
        one_name = λ t.
            count-update_one (name_is fold t) (has_pk pk) g (name_is fold t v) db.visitors
              (λ r. refl) (free_name fold decimal is_image (some pk) v db.visitors t (a 0))
              (ok.one_key pk) (ok.one_name t);
        one_phone = λ t u.
            count-update_one (phone_is t) (has_pk pk) g (phone_is t v) db.visitors (λ r. refl)
              (free_phone fold decimal is_image (some pk) v db.visitors t (a 0) u) (ok.one_key pk)
              (ok.one_phone t u);
        one_cpf = λ t u.
            count-update_one (cpf_is t) (has_pk pk) g (cpf_is t v) db.visitors (λ r. refl)
              (free_cpf fold decimal is_image (some pk) v db.visitors t (a 0) u) (ok.one_key pk)
              (ok.one_cpf t u);
        keys_below =
            All-update (λ x. x.pk < db.next_visitor) (has_pk pk) g (λ x h. h) db.visitors
              ok.keys_below;
        all_named =
            All-update (λ x. truthy (strip x.name) ≡ true) (has_pk pk) g (λ x h. (a x.pk).named)
              db.visitors ok.all_named;
        all_documented =
            All-update IsDocumented (has_pk pk) g (λ x h. (a x.pk).documents) db.visitors
              ok.all_documented;
        all_cpf =
            All-update (HasCpf decimal) (has_pk pk) g (λ x h. (a x.pk).has_cpf) db.visitors
              ok.all_cpf;
      }

  create-IsValid :
      (form : VisitorForm) (db : Db)
      → IsValid fold decimal db
      → IsValid fold decimal (create fold decimal is_image form db).1
  unfolding create
  create-IsValid form db ok =
      elim (Bool-cases (is_valid fold decimal is_image none form db.visitors)) [
        | inl h ↦ rw h (
            added-IsValid (filled form db.next_visitor) db refl
              (is_valid-Accepted fold decimal is_image none form db.next_visitor db.visitors h) ok)
        | inr n ↦ rw n ok
      ]

  edit-IsValid :
      (pk : ℕ) (form : VisitorForm) (db : Db)
      → IsValid fold decimal db
      → IsValid fold decimal (edit fold decimal is_image pk form db).1
  unfolding edit
  edit-IsValid pk form db ok = elim (Option-cases (first (select (has_pk pk) db.visitors))) [
    | inl none_found ↦ rw none_found ok
    | inr (v, f) ↦
        rw f (elim (Bool-cases (is_valid fold decimal is_image (some pk) form db.visitors)) [
          | inl h ↦ rw h (
              edited-IsValid form pk db
                (λ k. is_valid-Accepted fold decimal is_image (some pk) form k db.visitors h) ok)
          | inr n ↦ rw n ok
        ])
  ]

  save-IsValid :
      (r : Request) (db : Db)
      → IsValid fold decimal db
      → IsValid fold decimal (save fold decimal is_image r db)
  save-IsValid (new_visitor form) db ok = create-IsValid form db ok
  save-IsValid (edit_visitor pk form) db ok = edit-IsValid pk form db ok

  -- Whatever forms are submitted to the pages of the visitors, for whichever rows and in whatever order: no
  -- two visitors have the same name up to its case, and none the same phone number or the same text as CPF
  -- if they have one; every visitor has a name, and the foreign document if they are a foreigner, or else
  -- an RG and a CPF; and each CPF passes its check.
  pub save_all-IsValid :
      (rs : List Request) (db : Db)
      → IsValid fold decimal db
      → IsValid fold decimal (save_all fold decimal is_image rs db)
  save_all-IsValid [] db ok = ok
  save_all-IsValid (r ∷ rs) db ok =
      save_all-IsValid rs (save fold decimal is_image r db) (save-IsValid r db ok)
