-- ===== src/Witnesses/Items.antt =====
-- Raw items on which the theorems about app/ingestion/normalizer.py are applied, and tests.
use tenderbase_api.Prelude.{ℕ, ◌≡◌, refl, ◌↔◌, true, false, Option, none, some, [], ◌∷◌, arith}
use tenderbase_api.Prelude.Text.{Text, codes, contains}
use tenderbase_api.Enums.{awarded, closed, open_, unknown}
use tenderbase_api.Enums.Parse.{parse, parse_status, canonical, member_or}
use tenderbase_api.Normalizer.{
  text, null, briefing_required, any_word, status, Fields, briefing_compulsory, briefing_blob,
  briefing_words, get, compulsory_words, stated_status, compulsory_in, first_match, dated_status,
}
use tenderbase_api.Normalizer.Status.{IsSilent, IsUnstated, status-unknown}
use tenderbase_api.Normalizer.Kind.{rfq, procurement_type, stated_type, haystack}
use tenderbase_api.Normalizer.Briefing.{briefing_compulsory-optional}
use tenderbase_api.Cleaning.{tidy, cut, clean_text}
use tenderbase_api.Cleaning.Clean.{IsClean, clean_text-IsClean}
use tenderbase_api.Witnesses.Fixtures.{ascii}

abbrev undecided : Fields
undecided = (codes "status", null) ∷ (codes "state", text (codes "to follow")) ∷ []

abbrev undated : Option ℕ
undated = none

abbrev visit : Fields
visit =
    (codes "briefing_required", null)
    ∷ (codes "briefing_location", text (codes "town hall"))
    ∷ (codes "description", text (codes "an optional site meeting"))
    ∷ []

abbrev excused : Fields
excused = (codes "description", text (codes "a non-compulsory briefing")) ∷ []

status_of_undecided : status ascii 5 undecided (codes "road works") undated ≡ unknown
unfolding status get stated_status first_match dated_status parse_status parse canonical member_or
status_of_undecided = refl

status_from_state :
    status ascii 5 ((codes "state", text (codes "bid awarded")) ∷ []) (codes "roads") none ≡ awarded
unfolding status get stated_status first_match dated_status parse_status parse canonical member_or
status_from_state = refl

-- A word of the title hides that the closing date has passed.
status_from_title : status ascii 5 [] (codes "supply of current transformers") (some 3) ≡ open_
unfolding status get stated_status first_match dated_status parse_status parse canonical member_or
status_from_title = refl

status_from_date : status ascii 5 [] (codes "supply of transformers") (some 3) ≡ closed
unfolding status get stated_status first_match dated_status parse_status parse canonical member_or
status_from_date = refl

type_from_words : procurement_type ascii [] (codes "quotation for a bid") none ≡ rfq
unfolding procurement_type get stated_type first_match haystack
type_from_words = refl

required_by_place : briefing_required ascii visit none (some (codes "town hall")) ≡ some true
unfolding briefing_required get
required_by_place = refl

excused_is_compulsory : briefing_compulsory ascii excused ≡ some true
unfolding briefing_compulsory briefing_blob compulsory_in
excused_is_compulsory = refl

visit_is_optional : briefing_compulsory ascii visit ≡ some false
unfolding briefing_compulsory briefing_blob compulsory_in
visit_is_optional = refl

status-unknown_example : (status ascii 5 undecided (codes "road works") undated ≡ unknown) ↔ (
    IsUnstated ascii (get undecided (codes "status" ∷ codes "state" ∷ []))
    × IsSilent (codes "road works")
    × (undated ≡ none))
status-unknown_example = status-unknown ascii 5 undecided (codes "road works") undated

briefing_compulsory-optional_example :
    (any_word briefing_words (briefing_blob ascii visit) ≡ true)
    × (contains (codes "optional") (briefing_blob ascii visit) ≡ true)
    × (any_word compulsory_words (briefing_blob ascii visit) ≡ false)
briefing_compulsory-optional_example = briefing_compulsory-optional ascii visit visit_is_optional

abbrev untidy : Text
untidy = b' ' ∷ b'a' ∷ 9 ∷ b' ' ∷ b'b' ∷ 7 ∷ 13 ∷ 10 ∷ 10 ∷ 10 ∷ 13 ∷ b'c' ∷ b' ' ∷ []

tidied :
    clean_text ascii (λ t. t) none (some untidy) ≡ some (b'a' ∷ b' ' ∷ b'b' ∷ 10 ∷ 10 ∷ b'c' ∷ [])
unfolding clean_text tidy cut
tidied = refl

cleaned : clean_text ascii (λ t. t) (some 2) (some untidy) ≡ some (b'a' ∷ [])
unfolding clean_text tidy cut
cleaned = refl

clean_text-IsClean_example : IsClean ascii 2 (b'a' ∷ [])
clean_text-IsClean_example =
    clean_text-IsClean ascii (λ t. t) 2 (some untidy) (b'a' ∷ []) (omega arith) cleaned
