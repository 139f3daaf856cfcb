-- ===== src/Ingestion/Persist/History.antt =====
-- app/ingestion/pipeline.py, app/ingestion/versioning.py: the version history of every opportunity.
use mathlib.Core.List.{Memᴰ}
use native.Mathlib.Numerals.{add-one}
use tenderbase_api.Prelude.{
  ◌==◌, if◌then◌else◌, Bool-cases, All, ℕ, zero, suc, ◌+◌, ◌≤◌, ◌<◌, ◌≡◌, refl, sym, ap, subst, ◌∙◌,
  ◌≢◌, inl, inr, Bool, true, false, ◌||◌, Option, none, some, List, [], ◌∷◌, ◌++◌, arith,
}
use tenderbase_api.Prelude.Text.{Text, elem}
use tenderbase_api.Ingestion.Record.{Contact, Opportunity}
use tenderbase_api.Ingestion.Persist.Tables.{
  Version, Db, Env, upsert_contact, sync_documents, add_contact, given, sync_one,
}
use tenderbase_api.Ingestion.Persist.{
  urls_of, update_existing, create_opportunity, replace_row, apply_decision, Record, creation_event,
  Decision, row_diff, updated_row, add_version, store_row, add_row, persist_update, decision_events,
  seen_row,
}

-- The numbers of an opportunity's versions, the newest first.
unfoldable pub versions_of : ℕ → List Version → List ℕ
versions_of id [] = []
versions_of id (v ∷ vs) =
    let rest = versions_of id vs in if v.opportunity_id == id then v.version ∷ rest else rest

-- n, n - 1, ..., 1
abbrev pub countdown : ℕ → List ℕ
countdown zero = []
countdown (suc n) = suc n ∷ countdown n

abbrev pub IsNumbered : List Version → Opportunity → Type 0
IsNumbered vs o = versions_of o.id vs ≡ countdown o.version

-- Identifiers are below the next free one, and the versions of each opportunity are numbered from
-- 1 to its current version without a gap.
pub record IsVersioned (db : Db) : Type 0 where
  pub fresh : All (λ o. o.id < db.next_id) db.opportunities
  pub versions_fresh : All (λ v. v.opportunity_id < db.next_id) db.versions
  pub numbered : All (IsNumbered db.versions) db.opportunities

-- Tables that agree where the invariant looks, but for a larger next identifier.
pub record Extends (a b : Db) : Type 0 where
  pub grows : a.next_id ≤ b.next_id
  pub same_opportunities : b.opportunities ≡ a.opportunities
  pub same_versions : b.versions ≡ a.versions

Extends-trans : {a b c : Db} → Extends a b → Extends b c → Extends a c
Extends-trans h k = record {
  grows = omega (arith, h.grows, k.grows);
  same_opportunities = k.same_opportunities ∙ h.same_opportunities;
  same_versions = k.same_versions ∙ h.same_versions;
}

sync_one-Extends :
    (env : Env) (emit : Bool) (id : ℕ) (url : Text) (db : Db)
    → Extends db (sync_one env emit id url db)
unfolding sync_one
sync_one-Extends env emit id url db = elim (Bool-cases (elem url (urls_of id db.documents))) [
  | inl e ↦ rw e (record { grows = omega arith; same_opportunities = refl; same_versions = refl })
  | inr e ↦ rw e (record { grows = omega arith; same_opportunities = refl; same_versions = refl })
]

sync_documents-Extends :
    (env : Env) (emit : Bool) (id : ℕ) (urls : List Text) (db : Db)
    → Extends db (sync_documents env emit id urls db)
unfolding sync_documents
sync_documents-Extends env emit id [] db = record {
  grows = omega arith;
  same_opportunities = refl;
  same_versions = refl;
}
sync_documents-Extends env emit id (url ∷ urls) db =
    Extends-trans (sync_one-Extends env emit id url db)
      (sync_documents-Extends env emit id urls (sync_one env emit id url db))

add_contact-Extends : (t : Text) (o : Option ℕ) (db : Db) → Extends db (add_contact t o db).1
unfolding add_contact
add_contact-Extends t none db = record {
  grows = omega arith;
  same_opportunities = refl;
  same_versions = refl;
}
add_contact-Extends t (some id) db = record {
  grows = omega arith;
  same_opportunities = refl;
  same_versions = refl;
}

upsert_contact-Extends :
    (env : Env) (c : Option Contact) (db : Db) → Extends db (upsert_contact env c db).1
unfolding upsert_contact
upsert_contact-Extends env none db = record {
  grows = omega arith;
  same_opportunities = refl;
  same_versions = refl;
}
upsert_contact-Extends env (some c) db =
    elim (Bool-cases (given c.name || given c.email || given c.phone)) [
      | inl e ↦ rw e (add_contact-Extends _ _ db)
      | inr e ↦
          rw e (record { grows = omega arith; same_opportunities = refl; same_versions = refl })
    ]

All-fresh :
    (n m : ℕ) (os : List Opportunity) → n ≤ m → All (λ o. o.id < n) os → All (λ o. o.id < m) os
All-fresh n m [] h k = tt
All-fresh n m (o ∷ os) h k = (omega (arith, k.0), All-fresh n m os h k.1)

All-versions_fresh :
    (n m : ℕ) (vs : List Version)
    → n ≤ m
    → All (λ v. v.opportunity_id < n) vs
    → All (λ v. v.opportunity_id < m) vs
All-versions_fresh n m [] h k = tt
All-versions_fresh n m (v ∷ vs) h k = (omega (arith, k.0), All-versions_fresh n m vs h k.1)

Extends-IsVersioned : {a b : Db} → Extends a b → IsVersioned a → IsVersioned b
Extends-IsVersioned {a} {b} e h = record {
  fresh = rw e.same_opportunities (All-fresh a.next_id b.next_id a.opportunities e.grows h.fresh);
  versions_fresh =
      rw e.same_versions
        (All-versions_fresh a.next_id b.next_id a.versions e.grows h.versions_fresh);
  numbered = rw (e.same_opportunities, e.same_versions) h.numbered;
}

All-mem {ℓ} : {A : Type 0} (P : A → Type ℓ) (x : A) (xs : List A) → Memᴰ x xs → All P xs → P x
All-mem P x [] m h = elim m [ ]
All-mem P x (y ∷ ys) (Memᴰ.head e) h = subst P (sym e) h.0
All-mem P x (y ∷ ys) (Memᴰ.tail m) h = All-mem P x ys m h.1

versions_of_self :
    (id : ℕ) (v : Version) (vs : List Version)
    → v.opportunity_id ≡ id
    → versions_of id (v ∷ vs) ≡ v.version ∷ versions_of id vs
unfolding versions_of
versions_of_self id v vs h = ground arith

versions_of-other :
    (id : ℕ) (v : Version) (vs : List Version)
    → v.opportunity_id ≢ id
    → versions_of id (v ∷ vs) ≡ versions_of id vs
unfolding versions_of
versions_of-other id v vs h = ground arith

versions_of-fresh :
    (n : ℕ) (vs : List Version) → All (λ v. v.opportunity_id < n) vs → versions_of n vs ≡ []
unfolding versions_of
versions_of-fresh n [] h = refl
versions_of-fresh n (v ∷ vs) h = ground (arith, versions_of-fresh n vs h.1)

IsNumbered-other :
    (n : ℕ) (v : Version) (vs : List Version) (os : List Opportunity)
    → v.opportunity_id ≡ n
    → All (λ o. o.id < n) os
    → All (IsNumbered vs) os
    → All (IsNumbered (v ∷ vs)) os
IsNumbered-other n v vs [] e f h = tt
IsNumbered-other n v vs (o ∷ os) e f h =
    (versions_of-other o.id v vs (omega (arith, f.0)) ∙ h.0, IsNumbered-other n v vs os e f.1 h.1)

-- Storing a new opportunity keeps the invariant of the tables: its first version is numbered 1, and
-- its identifier is fresh.
pub create_opportunity-IsVersioned :
    (env : Env) (r : Record) (db : Db) → IsVersioned db → IsVersioned (create_opportunity env r db)
unfolding create_opportunity
create_opportunity-IsVersioned env r db h =
    let (contact_id, db') = upsert_contact env r.contact db in
    let h' = Extends-IsVersioned (upsert_contact-Extends env r.contact db) h in
    Extends-IsVersioned
      (sync_documents-Extends env false db'.next_id r.documents (
        creation_event env db'.next_id
          (add_version env db'.next_id 1 r [] (add_row env r contact_id db'))))
      (record {
        fresh = (
          omega arith,
          All-fresh db'.next_id (db'.next_id + 1) db'.opportunities (omega arith) h'.fresh,
        );
        versions_fresh = (
          omega arith,
          All-versions_fresh db'.next_id (db'.next_id + 1) db'.versions (omega arith)
              h'.versions_fresh,
        );
        numbered = (
          versions_of_self db'.next_id _ db'.versions refl
              ∙ ap (λ l. 1 ∷ l) (versions_of-fresh db'.next_id db'.versions h'.versions_fresh),
          IsNumbered-other db'.next_id _ db'.versions db'.opportunities refl h'.fresh h'.numbered,
        );
      })

replace_row-fresh :
    (n : ℕ) (o : Opportunity) (os : List Opportunity)
    → o.id < n
    → All (λ x. x.id < n) os
    → All (λ x. x.id < n) (replace_row o os)
unfolding replace_row
replace_row-fresh n o [] h k = tt
replace_row-fresh n o (x ∷ xs) h k = elim (Bool-cases (x.id == o.id)) [
  | inl e ↦ rw e (h, replace_row-fresh n o xs h k.1)
  | inr e ↦ rw e (k.0, replace_row-fresh n o xs h k.1)
]

replace_row-IsNumbered :
    (v : Version) (vs : List Version) (o : Opportunity) (os : List Opportunity)
    → v.opportunity_id ≡ o.id
    → IsNumbered (v ∷ vs) o
    → All (IsNumbered vs) os
    → All (IsNumbered (v ∷ vs)) (replace_row o os)
unfolding replace_row
replace_row-IsNumbered v vs o [] e h k = tt
replace_row-IsNumbered v vs o (x ∷ xs) e h k = elim (Bool-cases (x.id == o.id)) [
  | inl same ↦ rw same (h, replace_row-IsNumbered v vs o xs e h k.1)
  | inr other ↦
      rw other
        (versions_of-other x.id v vs (ground arith) ∙ k.0, replace_row-IsNumbered v vs o xs e h k.1)
]

-- A row that keeps its identifier and its version may be written at any time.
replace_row-same :
    (vs : List Version) (o : Opportunity) (os : List Opportunity)
    → IsNumbered vs o
    → All (IsNumbered vs) os
    → All (IsNumbered vs) (replace_row o os)
unfolding replace_row
replace_row-same vs o [] h k = tt
replace_row-same vs o (x ∷ xs) h k = elim (Bool-cases (x.id == o.id)) [
  | inl e ↦ rw e (h, replace_row-same vs o xs h k.1)
  | inr e ↦ rw e (k.0, replace_row-same vs o xs h k.1)
]

countdown-add_one : (n : ℕ) → countdown (n + 1) ≡ (n + 1) ∷ countdown n
countdown-add_one n = rw add-one refl

pub apply_decision-IsVersioned :
    (env : Env) (r : Record) (d : Decision) (o : Opportunity) (db : Db)
    → Memᴰ o db.opportunities
    → IsVersioned db
    → IsVersioned (apply_decision env r d o db)
unfolding apply_decision
apply_decision-IsVersioned env r d o db m h =
    let (contact_id, db') = upsert_contact env r.contact db in
    let grown = upsert_contact-Extends env r.contact db in
    let h' = Extends-IsVersioned grown h in
    let m' : Memᴰ o db'.opportunities = rw grown.same_opportunities m in
    let low = All-mem (λ x. x.id < db'.next_id) o db'.opportunities m' h'.fresh in
    let o' = updated_row env r d contact_id o in
    let db'' = add_version env o.id o'.version r d.changes (store_row o' db') in
    Extends-IsVersioned
      (sync_documents-Extends env true o.id r.documents
        (record db'' { events = decision_events env o.id o'.version d ++ db''.events }))
      (record {
        fresh = replace_row-fresh db'.next_id o' db'.opportunities low h'.fresh;
        versions_fresh = (low, h'.versions_fresh);
        numbered =
            replace_row-IsNumbered _ db'.versions o' db'.opportunities refl
              (versions_of_self o.id _ db'.versions refl
                ∙ ap (λ l. (o.version + 1) ∷ l)
                    (All-mem (IsNumbered db'.versions) o db'.opportunities m' h'.numbered)
                ∙ sym (countdown-add_one o.version))
              h'.numbered;
      })

persist_update-IsVersioned :
    (b : Bool) (env : Env) (r : Record) (d : Decision) (o : Opportunity) (db : Db)
    → Memᴰ o db.opportunities
    → IsVersioned db
    → IsVersioned (persist_update b env r d o db).1
unfolding persist_update
persist_update-IsVersioned true env r d o db m h = apply_decision-IsVersioned env r d o db m h
persist_update-IsVersioned false env r d o db m h = record {
  fresh =
      replace_row-fresh db.next_id (seen_row env r o) db.opportunities
        (All-mem (λ x. x.id < db.next_id) o db.opportunities m h.fresh) h.fresh;
  versions_fresh = h.versions_fresh;
  numbered =
      replace_row-same db.versions (seen_row env r o) db.opportunities
        (All-mem (IsNumbered db.versions) o db.opportunities m h.numbered) h.numbered;
}

-- An update of a stored row keeps the version history of every opportunity numbered from 1 to its
-- current version.
pub update_existing-IsVersioned :
    (env : Env) (r : Record) (o : Opportunity) (db : Db)
    → Memᴰ o db.opportunities
    → IsVersioned db
    → IsVersioned (update_existing env r o db).1
unfolding update_existing
update_existing-IsVersioned env r o db m h =
    persist_update-IsVersioned (row_diff env r o db).changed env r (row_diff env r o db) o db m h
