-- ===== src/Ingestion/Versioning/Settled.antt =====
-- app/ingestion/versioning.py, app/ingestion/pipeline.py: the tracked fields of a row after an update.
use mathlib.Core.List.{Memᴰ}
use mathlib.Core.Logic.{if_pos, if_neg}
use tenderbase_api.Prelude.{
  if◌then◌else◌, Bool-cases, is_some, ◌≡◌, refl, ap, subst, ◌∙◌, ◌⊎◌, inl, inr, true, false, Option,
  none, some, List, [], ◌∷◌, arith,
}
use tenderbase_api.Prelude.Text.{Text, Unicode, text_eq, text_eq_refl, eq_of_text_eq}
use tenderbase_api.Ingestion.Record.{
  Field, reference_number, title, description, procurement_type, status, organization, published_at,
  closing_at, estimated_value, currency, submission_method, submission_url, submission_address,
  briefing_required, briefing_compulsory, briefing_date, briefing_location, source_url,
  canonical_url, Field-discrete, Value, reload_fields, column_value, text, moment, flag, decimal,
  Fields, set_field, reload_fields, column_value,
}
use tenderbase_api.Ingestion.Versioning.Tracked.{tracked_fields-mem}
use tenderbase_api.Ingestion.Versioning.{
  same_value, value_eq, comparable, apply_changes, diff_fields, tracked_fields,
}

value_eq_refl : (v : Value) → value_eq (comparable v) (comparable v) ≡ true
unfolding value_eq comparable
value_eq_refl (text t) = text_eq_refl t
value_eq_refl (moment m) = ground arith
value_eq_refl (flag true) = refl
value_eq_refl (flag false) = refl
value_eq_refl (decimal s t) = text_eq_refl t

same_value_refl : (v : Option Value) → same_value v v ≡ true
unfolding same_value
same_value_refl none = refl
same_value_refl (some v) = value_eq_refl v

-- The field of `stored` is the old value or the new one.
abbrev IsEither : Fields → Fields → Fields → Field → Type 0
IsEither old new stored f = (stored f ≡ old f) ⊎ (stored f ≡ new f)

set_field-cases :
    (g : Field) (v : Option Value) (fields : Fields) (f : Field)
    → (g ≡ f) × (set_field g v fields f ≡ v) ⊎ (set_field g v fields f ≡ fields f)
set_field-cases g v fields f = elim (Field-discrete g f) [
  | yes e ↦ inl (e, if_pos (Field-discrete g f) e v (fields f))
  | no e ↦ inr (if_neg (Field-discrete g f) e v (fields f))
]

is_some_of_changed : (old new : Option Value) → same_value old new ≡ false → is_some new ≡ true
unfolding same_value
is_some_of_changed old none h = absurd (ground arith)
is_some_of_changed old (some v) h = refl

-- One round of the loop.
abbrev settle_one : Fields → Fields → Field → Fields → Fields
settle_one old new f stored =
    if same_value (old f) (new f) then stored else set_field f (new f) stored

module _ (u : Unicode) (old new : Fields) where
  settled : List Field → Fields → Fields
  settled fs stored = apply_changes new (diff_fields u old new fs) stored

  settled-cons :
      (f : Field) (fs : List Field) (stored : Fields)
      → settled (f ∷ fs) stored ≡ settled fs (settle_one old new f stored)
  unfolding settled apply_changes diff_fields
  settled-cons f fs stored = elim (Bool-cases (same_value (old f) (new f))) [
    | inl e ↦ rw e
    | inr e ↦ rw e (
        ap
          (λ b.
            apply_changes new (diff_fields u old new fs)
              (if b then set_field f (new f) stored else stored))
          (is_some_of_changed (old f) (new f) e))
  ]

  settle_one-cases :
      (g : Field) (stored : Fields) (f : Field)
      → (g ≡ f) × (settle_one old new g stored f ≡ new f) × (same_value (old f) (new f) ≡ false)
        ⊎ (settle_one old new g stored f ≡ stored f)
  settle_one-cases g stored f = elim (Bool-cases (same_value (old g) (new g))) [
    | inl e ↦ inr (rw e)
    | inr e ↦ elim (set_field-cases g (new g) stored f) [
      | inl (p, q) ↦
          inl (p, rw e (q ∙ ap new p), subst (λ k. same_value (old k) (new k) ≡ false) p e)
      | inr q ↦ inr (rw e q)
    ]
  ]

  settled-keeps :
      (fs : List Field) (stored : Fields) (f : Field)
      → same_value (stored f) (new f) ≡ true
      → same_value (settled fs stored f) (new f) ≡ true
  settled-keeps [] stored f h = unfold settled apply_changes diff_fields in h
  settled-keeps (g ∷ fs) stored f h = rw (settled-cons g fs stored) (
      settled-keeps fs (settle_one old new g stored) f (elim (settle_one-cases g stored f) [
        | inl (p, q, _) ↦ rw q (same_value_refl (new f))
        | inr q ↦ rw q h
      ]))

  settle_one_self :
      (f : Field) (stored : Fields)
      → IsEither old new stored f
      → same_value (settle_one old new f stored f) (new f) ≡ true
  settle_one_self f stored h = elim (Bool-cases (same_value (old f) (new f))) [
    | inl e ↦ rw e (elim h [ inl k ↦ rw k e | inr k ↦ rw k (same_value_refl (new f)) ])
    | inr e ↦ rw (e, if_pos (Field-discrete f f) refl (new f) (stored f)) (same_value_refl (new f))
  ]

  settled-settles :
      (fs : List Field) (stored : Fields) (f : Field)
      → Memᴰ f fs
      → IsEither old new stored f
      → same_value (settled fs stored f) (new f) ≡ true
  settled-settles [] stored f m h = elim m [ ]
  settled-settles (g ∷ fs) stored f (Memᴰ.head e) h =
      subst (λ k. same_value (settled (k ∷ fs) stored f) (new f) ≡ true) e
        (rw (settled-cons f fs stored)
          (settled-keeps fs (settle_one old new f stored) f (settle_one_self f stored h)))
  settled-settles (g ∷ fs) stored f (Memᴰ.tail m) h = rw (settled-cons g fs stored) (
      settled-settles fs (settle_one old new g stored) f m (elim (settle_one-cases g stored f) [
        | inl (p, q, _) ↦ inr q
        | inr q ↦ elim h [ inl k ↦ inl (q ∙ k) | inr k ↦ inr (q ∙ k) ]
      ]))

  settled-is_some :
      (fs : List Field) (stored : Fields) (f : Field)
      → is_some (stored f) ≡ true
      → is_some (settled fs stored f) ≡ true
  settled-is_some [] stored f h = unfold settled apply_changes diff_fields in h
  settled-is_some (g ∷ fs) stored f h = rw (settled-cons g fs stored) (
      settled-is_some fs (settle_one old new g stored) f (elim (settle_one-cases g stored f) [
        | inl (p, q, c) ↦ rw q (is_some_of_changed (old f) (new f) c)
        | inr q ↦ rw q h
      ]))

  settled-unchanged :
      (fs : List Field) (stored : Fields) (f : Field)
      → same_value (old f) (new f) ≡ true
      → settled fs stored f ≡ stored f
  settled-unchanged [] stored f h = unfold settled apply_changes diff_fields in refl
  settled-unchanged (g ∷ fs) stored f h = rw (settled-cons g fs stored) (
      settled-unchanged fs (settle_one old new g stored) f h ∙ elim (settle_one-cases g stored f) [
        | inl (p, q, c) ↦ absurd (ground (arith, h, c))
        | inr q ↦ q
      ])

diff_fields-nil :
    (u : Unicode) (old new : Fields) (fs : List Field)
    → ((f : Field) → same_value (old f) (new f) ≡ true)
    → diff_fields u old new fs ≡ []
unfolding diff_fields
diff_fields-nil u old new [] h = refl
diff_fields-nil u old new (f ∷ fs) h = rw (h f, diff_fields-nil u old new fs h)

-- The row's fields after an update by the record.
abbrev pub updated_fields : Unicode → Fields → Fields → Fields
updated_fields u old new = apply_changes new (diff_fields u old new tracked_fields) old

-- The value is written as its column gives it back.
abbrev pub IsStorable : (Text → Text) → Option Value → Type 0
IsStorable numeric (some (decimal negative t)) = numeric t ≡ t
IsStorable numeric (some (text t)) = numeric t ≡ t
IsStorable numeric _ = Unit

text_eq-numeric :
    (numeric : Text → Text) (a b : Text)
    → numeric b ≡ b
    → text_eq a b ≡ true
    → text_eq (numeric a) b ≡ true
text_eq-numeric numeric a b w h =
    ap (λ t. text_eq (numeric t) b) (eq_of_text_eq a b h) ∙ ap (λ t. text_eq t b) w ∙ text_eq_refl b

column_value-same :
    (numeric : Text → Text) (stored new : Option Value)
    → IsStorable numeric new
    → same_value stored new ≡ true
    → same_value (column_value numeric stored) new ≡ true
unfolding same_value value_eq comparable
column_value-same numeric none new w h = h
column_value-same numeric (some (text a)) new w h = h
column_value-same numeric (some (moment a)) new w h = h
column_value-same numeric (some (flag a)) new w h = h
column_value-same numeric (some (decimal s a)) none w h = refl
column_value-same numeric (some (decimal s a)) (some (text b)) w h = text_eq-numeric numeric a b w h
column_value-same numeric (some (decimal s a)) (some (decimal r b)) w h =
    text_eq-numeric numeric a b w h
column_value-same numeric (some (decimal s a)) (some (moment b)) w h = h
column_value-same numeric (some (decimal s a)) (some (flag b)) w h = h

reload_fields-same :
    (numeric : Text → Text) (stored new : Fields) (f : Field)
    → IsStorable numeric (new Field.estimated_value)
    → same_value (stored f) (new f) ≡ true
    → same_value (reload_fields numeric stored f) (new f) ≡ true
unfolding reload_fields
reload_fields-same numeric stored new estimated_value w h =
    column_value-same numeric (stored Field.estimated_value) (new Field.estimated_value) w h
reload_fields-same numeric stored new reference_number w h = h
reload_fields-same numeric stored new title w h = h
reload_fields-same numeric stored new description w h = h
reload_fields-same numeric stored new procurement_type w h = h
reload_fields-same numeric stored new status w h = h
reload_fields-same numeric stored new organization w h = h
reload_fields-same numeric stored new published_at w h = h
reload_fields-same numeric stored new closing_at w h = h
reload_fields-same numeric stored new currency w h = h
reload_fields-same numeric stored new submission_method w h = h
reload_fields-same numeric stored new submission_url w h = h
reload_fields-same numeric stored new submission_address w h = h
reload_fields-same numeric stored new briefing_required w h = h
reload_fields-same numeric stored new briefing_compulsory w h = h
reload_fields-same numeric stored new briefing_date w h = h
reload_fields-same numeric stored new briefing_location w h = h
reload_fields-same numeric stored new source_url w h = h
reload_fields-same numeric stored new canonical_url w h = h

-- After an update each field of the row equals the record's where the record has one, no known
-- value has become NULL, and a field that had not changed is as it was. Where the record's estimated
-- value is written as its column gives it back, the same record then shows no changed field to a later
-- session.
pub updated_fields_settled :
    (u : Unicode) (numeric : Text → Text) (old new : Fields)
    → IsStorable numeric (new Field.estimated_value)
    → ((f : Field) → same_value (updated_fields u old new f) (new f) ≡ true)
      × ((f : Field) → is_some (old f) ≡ true → is_some (updated_fields u old new f) ≡ true)
      × ((f : Field) → same_value (old f) (new f) ≡ true → updated_fields u old new f ≡ old f)
      × (diff_fields u (reload_fields numeric (updated_fields u old new)) new tracked_fields ≡ [])
unfolding settled
updated_fields_settled u numeric old new w =
    let same = λ (f : Field).
      settled-settles u old new tracked_fields old f (tracked_fields-mem f) (inl refl) in
    (
      same,
      λ f h. settled-is_some u old new tracked_fields old f h,
      λ f h. settled-unchanged u old new tracked_fields old f h,
      diff_fields-nil u _ new tracked_fields λ f. reload_fields-same numeric _ new f w (same f),
    )
