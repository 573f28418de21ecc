-- ===== src/Store/Dedup/Laws.antt =====
-- A message is handled once, and the answer of its handling comes back.
use snw_agent_link.Prelude.{
  ℕ, ◌≡◌, refl, false, Option, some, List, [], ◌∷◌, String, arith, Bool-cases, inl, inr,
  Option-cases, same_refl, is_empty, size,
}
use snw_agent_link.Errors.{ok, Result-cases}
use snw_agent_link.Exec.{◌>>=◌}
use snw_agent_link.Time.{Time}
use snw_agent_link.Table.{select_one}
use snw_agent_link.Table.Laws.{
  select_one-insert, select_one-update, changed, taken-select_one, select_one-taken,
  select_one-holds, affected-none,
}
use snw_agent_link.Secure.{Aead, Gcm, gcm, encrypt, nonce_size}
use snw_agent_link.Secure.RoundTrip.{IsLawful, decrypt-encrypt, is_empty-encrypt}
use snw_agent_link.Model.{DeduplicationRecord}
use snw_agent_link.Store.Tables.{Database}
use snw_agent_link.Store.Dedup.{
  scoped_key, record_scoped_message_once, get_scoped_deduplication, complete_scoped_message,
  seen_row, sealed_body, opened_body, scoped_dedup_associated_data,
}

-- The two operations that write scoped records.
pub data ScopedOperation : Type 0 where
  record_once : Time → String → String → ℕ → String → String → ScopedOperation
  complete :
      Option Aead
      → String
      → String
      → String
      → ℕ
      → String
      → String
      → ℕ
      → String
      → String
      → ScopedOperation

module _ (decimal : ℕ → String) where
  unfoldable pub run_scoped : ScopedOperation → Database → Database
  run_scoped (record_once wall s t e i task) d = (record_scoped_message_once wall s t e i task d).1
  run_scoped (complete a n s t e i task status kind body) d =
      (complete_scoped_message decimal a n s t e i task status kind body d).1

  unfoldable pub run_scoped_all : List ScopedOperation → Database → Database
  run_scoped_all [] d = d
  run_scoped_all (o ∷ os) d = run_scoped_all os (run_scoped o d)

-- There is a record of the message.
pub record IsSeen (source target : String) (epoch : ℕ) (id : String) (d : Database) : Type 0 where
  pub row : DeduplicationRecord
  pub found : select_one (scoped_key source target epoch id) d.scoped ≡ some row

module _ (source target : String) (epoch : ℕ) (id : String) (d : Database) where
  pub recorded-IsSeen :
      (wall : Time) (task : String)
      → IsSeen source target epoch id
          (record_scoped_message_once wall source target epoch id task d).1
  unfolding record_scoped_message_once scoped_key
  recorded-IsSeen wall task =
      let key = scoped_key source target epoch id in
      let row = seen_row source target epoch id task wall in
      elim (Option-cases (select_one key d.scoped)) [
        | inl e ↦ record {
          row = row;
          found = ground (
            arith,
            select_one-taken key d.scoped e,
            select_one-insert key row d.scoped,
            same_refl source,
            same_refl target,
            same_refl id,
          );
        }
        | inr (x, e) ↦ record { row = x; found = ground (arith, taken-select_one key d.scoped) }
      ]

  pub record-IsSeen :
      (wall : Time) (s t : String) (e : ℕ) (i task : String)
      → IsSeen source target epoch id d
      → IsSeen source target epoch id (record_scoped_message_once wall s t e i task d).1
  unfolding record_scoped_message_once
  record-IsSeen wall s t e i task seen = record {
    row = seen.row;
    found = ground (
      arith,
      seen.found,
      select_one-insert (scoped_key source target epoch id) (seen_row s t e i task wall) d.scoped,
    );
  }

  pub complete-IsSeen :
      (decimal : ℕ → String) (a : Option Aead) (n s t : String) (e : ℕ) (i task : String)
      (status : ℕ) (kind body : String)
      → IsSeen source target epoch id d
      → IsSeen source target epoch id
          (complete_scoped_message decimal a n s t e i task status kind body d).1
  unfolding complete_scoped_message ◌>>=◌ scoped_key
  complete-IsSeen decimal a n s t e i task status kind body seen =
      elim (Result-cases
        (sealed_body decimal a n body (scoped_dedup_associated_data decimal s t e i))) [
          | inl (x, bad) ↦ record { row = seen.row; found = ground (arith, seen.found) }
          | inr (sealed, good) ↦
              let f = λ (r : DeduplicationRecord). record r {
                task_id = task;
                response_status = status;
                response_type = kind;
                response_body = sealed;
              } in
              let key = scoped_key source target epoch id in
              let other = scoped_key s t e i in
              record {
                row = changed key other f seen.row;
                found =
                    ground (arith, seen.found, select_one-update key other f d.scoped (λ _. refl));
              }
        ]

  pub seen-refused :
      (wall : Time) (task : String)
      → IsSeen source target epoch id d
      → (record_scoped_message_once wall source target epoch id task d).0 ≡ ok false
  unfolding record_scoped_message_once
  seen-refused wall task seen =
      ground (arith, seen.found, taken-select_one (scoped_key source target epoch id) d.scoped)

module _ (decimal : ℕ → String) where
  run_scoped_all-IsSeen :
      (source target : String) (epoch : ℕ) (id : String) (os : List ScopedOperation) (d : Database)
      → IsSeen source target epoch id d
      → IsSeen source target epoch id (run_scoped_all decimal os d)
  unfolding run_scoped run_scoped_all
  run_scoped_all-IsSeen source target epoch id [] d seen = seen
  run_scoped_all-IsSeen source target epoch id (record_once wall s t e i task ∷ os) d seen =
      run_scoped_all-IsSeen source target epoch id os _
        (record-IsSeen source target epoch id d wall s t e i task seen)
  run_scoped_all-IsSeen source target epoch id (complete a n s t e i task status kind body ∷ os) d
        seen =
      run_scoped_all-IsSeen source target epoch id os _
        (complete-IsSeen source target epoch id d decimal a n s t e i task status kind body seen)

  -- RecordScopedMessageOnce returns true for a message at most once: after it ran for the message,
  -- and whatever scoped records were written or completed since, it returns false for it.
  pub record_scoped_message_once-once :
      (wall again : Time) (source target : String) (epoch : ℕ) (id task task' : String)
      (os : List ScopedOperation) (d : Database)
      → (record_scoped_message_once again source target epoch id task' (
          run_scoped_all decimal os
            (record_scoped_message_once wall source target epoch id task d).1)).0
        ≡ ok false
  record_scoped_message_once-once wall again source target epoch id task task' os d =
      seen-refused source target epoch id _ again task' (
        run_scoped_all-IsSeen source target epoch id os _
          (recorded-IsSeen source target epoch id d wall task))

  module _ (a : Aead) (g : Gcm) (nonce source target : String) (epoch : ℕ) (id task : String)
      (status : ℕ) (kind body : String) (d : Database) (cipher : gcm a ≡ ok g) (law : IsLawful g)
      (nonce_fits : size nonce ≡ nonce_size) where
    abbrev answered : String → DeduplicationRecord → DeduplicationRecord
    answered sealed r = record r {
      task_id = task;
      response_status = status;
      response_type = kind;
      response_body = sealed;
    }

    keeps_key :
        (sealed : String) (r : DeduplicationRecord)
        → scoped_key source target epoch id (answered sealed r)
          ≡ scoped_key source target epoch id r
    unfolding scoped_key
    keeps_key sealed r = refl

    opened_body-sealed_body :
        (sealed associated : String)
        → sealed_body decimal (some a) nonce body associated ≡ ok sealed
        → opened_body decimal (some a) sealed associated ≡ ok body
    opened_body-sealed_body sealed associated h = elim (Bool-cases (is_empty body)) [
      | inl e ↦ ground arith
      | inr e ↦
          let sealed_eq : encrypt a nonce body associated ≡ ok sealed = ground arith in
          ground (
            arith,
            is_empty-encrypt a nonce body associated {sealed = sealed} nonce_fits sealed_eq,
            decrypt-encrypt a g nonce body associated {sealed = sealed} cipher law nonce_fits
                sealed_eq,
          )
    ]

    -- The answer that CompleteScopedMessage recorded under a cipher comes back from
    -- GetScopedDeduplication: its task, its status, its type, and its body in the clear.
    pub get_scoped_deduplication_complete :
        (complete_scoped_message decimal
            (some a)
            nonce
            source
            target
            epoch
            id
            task
            status
            kind
            body
            d).0
          ≡ ok tt
        → (r : DeduplicationRecord) × (get_scoped_deduplication decimal
              (some a)
              source
              target
              epoch
              id
              (complete_scoped_message decimal
                (some a)
                nonce
                source
                target
                epoch
                id
                task
                status
                kind
                body
                d).1
            ≡ ok r)
          × (r.task_id ≡ task)
          × (r.response_status ≡ status)
          × (r.response_type ≡ kind)
          × (r.response_body ≡ body)
    unfolding complete_scoped_message get_scoped_deduplication ◌>>=◌
    get_scoped_deduplication_complete h =
        let key = scoped_key source target epoch id in
        let associated = scoped_dedup_associated_data decimal source target epoch id in
        elim (Result-cases (sealed_body decimal (some a) nonce body associated)) [
          | inl (e, bad) ↦ absurd (ground arith)
          | inr (sealed, good) ↦ elim (Option-cases (select_one key d.scoped)) [
            | inl none_found ↦ absurd (ground (arith, affected-none key d.scoped none_found))
            | inr (r, found) ↦
                let opens = opened_body-sealed_body sealed associated good in
                (
                  record (answered sealed r) { response_body = body },
                  ground (
                    arith,
                    found,
                    select_one-holds key r d.scoped found,
                    select_one-update key key (answered sealed) d.scoped (λ _. keeps_key sealed _),
                    opens,
                  ),
                  refl,
                  refl,
                  refl,
                  refl,
                )
          ]
        ]
