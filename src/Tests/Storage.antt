-- ===== src/Tests/Storage.antt =====
-- The stores at concrete inputs.
use finance.Base.{none, ◌≢◌, arith, eq_iff, some, [], ◌∷◌, List, map, ◌≡◌, refl}
use finance.Base.Int.{ℤ, pos, ◌-ℤ◌}
use finance.Ledger.Backend.{new_backend}
use finance.Pipeline.Context.{done}
use finance.Samples.Rows.{refusal, refusal_archive, rows_of}
use finance.Storage.Ledger.{new_tables, append, entries, archive_for, get_meta, init_meta}
use finance.Storage.Ledger.Answers.{
  Call, append_entry, read_entries, read_archive, read_meta, first_meta, sqlite_answers,
  memory_answers, sqlite_answers-memory_answers,
}
use finance.Samples.Fixed.{fixed, fixed_laws}
use finance.State.Velocity
use finance.Storage.Velocity.{new_table}
use finance.Storage.Velocity.Answers.{
  VelocityCall, record_transfer, read_window, forget_all, nothing, window_is, table_answers,
  dict_answers, table_answers-dict_answers,
}
use finance.Ap2.Text
use finance.Ap2.Scope.{reserve, OpenMandateScope}
use finance.Samples.Rows.{set_text, half_spent}
use finance.Storage.Scope.{put, get}
use finance.Storage.Scope.Roundtrip.{SameScope, get-put}
use finance.Samples.Platform.{toy_crypto}
use finance.Storage.Keys
use finance.Storage.Keys.{HexText, PersistentKeyRing, new_ring, public_key, private_key, open_ring}
use finance.Storage.Keys.Reopening.{created, registered, after_calls, open_ring-after_calls}

abbrev calls : List (Call ℤ)
calls =
    first_meta "signing_pub" "k1"
    ∷ append_entry "dec-1" refusal (some refusal_archive)
    ∷ first_meta "signing_pub" "k2"
    ∷ read_entries
    ∷ read_archive "dec-1"
    ∷ read_archive "dec-2"
    ∷ read_meta "signing_pub"
    ∷ []

sqlite_answers-memory_answers_example :
    sqlite_answers rows_of calls new_tables ≡ map done (memory_answers calls new_backend)
unfolding append entries archive_for get_meta init_meta
sqlite_answers-memory_answers_example =
    sqlite_answers-memory_answers rows_of calls
      (tt, ((refl, refl), (tt, (tt, (tt, (tt, (tt, tt))))))) refl

abbrev day_of_transfers : List (VelocityCall ℤ)
day_of_transfers =
    record_transfer "a" (pos 10) (pos 5)
    ∷ record_transfer "b" (pos 12) (pos 6)
    ∷ record_transfer "a" (pos 20) (pos 7)
    ∷ read_window "a" (pos 25) (pos 10)
    ∷ read_window "b" (pos 25) (pos 20)
    ∷ forget_all
    ∷ read_window "a" (pos 30) (pos 20)
    ∷ []

table_answers-dict_answers_example :
    table_answers day_of_transfers new_table ≡ map done (dict_answers day_of_transfers [])
unfolding ◌-ℤ◌
table_answers-dict_answers_example =
    table_answers-dict_answers fixed_laws (pos 0) day_of_transfers
      (refl, refl, (refl, refl, (refl, refl, (refl, refl, (refl, refl, (refl, refl, tt))))))

windows_of_the_day :
    dict_answers day_of_transfers []
    ≡ nothing
      ∷ nothing
      ∷ nothing
      ∷ window_is ((pos 20, pos 7) ∷ [])
      ∷ window_is ((pos 12, pos 6) ∷ [])
      ∷ nothing
      ∷ window_is []
      ∷ []
unfolding Velocity.record_entry Velocity.window Velocity.reset ◌-ℤ◌
windows_of_the_day = refl

other_mandate : "open-2" ≢ half_spent.mandate_id
other_mandate e = absurd (ground (arith, (eq_iff "open-2" "open-1").1 e))

get-put_example :
    ((put set_text half_spent []).0 ≡ done tt)
    × (read : OpenMandateScope ℤ) × (get set_text "open-1" (put set_text half_spent []).1
        ≡ done (some read))
    × SameScope read half_spent
    × ((reserve "c" (pos 10) read).0 ≡ (reserve "c" (pos 10) half_spent).0)
    × (get set_text "open-2" (put set_text half_spent []).1 ≡ get set_text "open-2" [])
unfolding Text.join Text.split_on
get-put_example =
    get-put set_text half_spent [] "open-2" "c" (pos 10) ("a" ∷ [], refl, λ h. refl)
      ("b" ∷ [], refl, λ h. refl) refl refl other_mandate

abbrev plain_hex : HexText
plain_hex = record { hex = λ s. s; from_hex = some }

abbrev ring_store : PersistentKeyRing
ring_store =
    after_calls plain_hex toy_crypto
      (created "did:g1" "k1" ∷ registered "did:g2" "k2" ∷ created "did:g1" "k3" ∷ [])
      (record { ring = new_ring; dir = [] })

open_ring-after_calls_example :
    (again : PersistentKeyRing) × (open_ring plain_hex ring_store.dir ≡ done again)
    × (public_key "did:g1" again.ring ≡ public_key "did:g1" ring_store.ring)
    × (private_key "did:g1" again.ring ≡ none)
open_ring-after_calls_example =
    open_ring-after_calls plain_hex toy_crypto
      (created "did:g1" "k1" ∷ registered "did:g2" "k2" ∷ created "did:g1" "k3" ∷ []) "did:g1"
      (λ key. refl)

kept_key : public_key "did:g1" ring_store.ring ≡ some "k3"
unfolding public_key Keys.create_stored Keys.register_stored Keys.create Keys.register_pub
kept_key = refl
