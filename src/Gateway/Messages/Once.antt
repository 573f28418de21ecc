-- ===== src/Gateway/Messages/Once.antt =====
-- How often the local agent gets a message.
use snw_agent_link.Prelude.{
  ℕ, zero, suc, ◌≤◌, ◌≡◌, refl, sym, ap, ◌∙◌, ◌&&◌, Bool, true, false, Option, List, [], ◌∷◌,
  String, same, same→eq, is_empty, length, if◌then◌else◌, arith, Bool-cases, inl, inr, ◌⊎◌,
}
use snw_agent_link.Errors.{Result, ok, Result-cases}
use snw_agent_link.Exec.{◌>>=◌, ◌>>◌}
use snw_agent_link.Time.{Time}
use snw_agent_link.Secure.{Aead}
use snw_agent_link.Model.{InboxMessage}
use snw_agent_link.Store.Tables.{Database}
use snw_agent_link.Store.Dedup.{get_scoped_deduplication, record_scoped_message_once}
use snw_agent_link.Store.Dedup.Laws.{
  IsSeen, recorded-IsSeen, record-IsSeen, complete-IsSeen, seen-refused,
}
use snw_agent_link.Store.Inbox.{record_inbox_message}
use snw_agent_link.Http.{Request, Web}
use snw_agent_link.Gateway.Messages.{
  Reply, Handed, World, Json, Clock, Agent, forward, hand_over, first_delivery, deliver,
  serve_a2a_with_dedup, handed_of, inbox_message, task_of,
}

-- The message has the key.
unfoldable pub is_of : Handed → Handed → Bool
is_of k h = same h.remote k.remote && (same h.local k.local && same h.message_id k.message_id)

-- How often it was handed over.
unfoldable pub times : Handed → List Handed → ℕ
times k [] = 0
times k (h ∷ hs) = let rest = times k hs in if is_of k h then suc rest else rest

abbrev pub Seen : Handed → Database → Type 0
Seen k d = IsSeen k.remote k.local 0 k.message_id d

pub is_of-same :
    (k h : Handed)
    → is_of k h ≡ true
    → (h.remote ≡ k.remote) × (h.local ≡ k.local) × (h.message_id ≡ k.message_id)
unfolding is_of
is_of-same k h e = (
  ground (arith, e, same→eq h.remote k.remote),
  ground (arith, e, same→eq h.local k.local),
  ground (arith, e, same→eq h.message_id k.message_id),
)

Seen-key : (k h : Handed) (d : Database) → is_of k h ≡ true → Seen h d → Seen k d
Seen-key k h d e seen = let (a, b, c) = is_of-same k h e in rw (sym a, sym b, sym c) seen

Seen-key_back : (k h : Handed) (d : Database) → is_of k h ≡ true → Seen k d → Seen h d
Seen-key_back k h d e seen = let (a, b, c) = is_of-same k h e in rw (a, b, c) seen

Seen-rows : (k : Handed) (d d' : Database) → d'.scoped ≡ d.scoped → Seen k d → Seen k d'
Seen-rows k d d' same_rows s = record { row = s.row; found = rw same_rows s.found }

pub inbox_keeps_rows :
    (a : Option Aead) (nonce : String) (wall : Time) (m : InboxMessage) (d : Database)
    → (record_inbox_message a nonce wall m d).1.scoped ≡ d.scoped
unfolding record_inbox_message ◌>>=◌ ◌>>◌
inbox_keeps_rows a nonce wall m d = ground arith

module _ (w : Web) (j : Json) (decimal : ℕ → String) (sealing : Option Aead) (agent : Agent)
    (h : Handed) where
  -- The records that are there stay.
  abbrev pub Keeps : World → World → Type 0
  Keeps s s' = (x : Handed) → Seen x s.database → Seen x s'.database

  -- What a delivery may do to the messages handed over and to the records.
  pub data Effect (s s' : World) : Type 0 where
    none_handed : s'.handed ≡ s.handed → Keeps s s' → Effect s s'
    one_handed :
        s'.handed ≡ h ∷ s.handed
        → (Seen h s.database → ⊥)
        → Seen h s'.database
        → Keeps s s'
        → Effect s s'

  pub Effect-hands :
      (s s' : World) → Effect s s' → (s'.handed ≡ s.handed) ⊎ (s'.handed ≡ h ∷ s.handed)
  Effect-hands s s' (none_handed e keeps) = inl e
  Effect-hands s s' (one_handed e unseen seen keeps) = inr e

  hand_over_keeps :
      (c : Clock) (s : World) (x : Handed)
      → Seen x s.database
      → Seen x (hand_over w j decimal sealing agent c h s).1.database
  unfolding hand_over forward
  hand_over_keeps c s x seen =
      let r = agent (length s.handed) h in
      complete-IsSeen x.remote x.local 0 x.message_id s.database decimal sealing c.answer_nonce
        h.remote h.local 0 h.message_id (task_of w j decimal sealing agent c r) r.status
        r.content_type r.body seen

  hand_over_hands :
      (c : Clock) (s : World) → (hand_over w j decimal sealing agent c h s).1.handed ≡ h ∷ s.handed
  unfolding hand_over forward
  hand_over_hands c s = refl

  abbrev pub with_database : World → Database → World
  with_database s d = record s { database = d }

  -- The first delivery hands the message over, or nothing.
  abbrev Delivers : World → World → Type 0
  Delivers s s' = ((s'.handed ≡ s.handed) ⊎ (s'.handed ≡ h ∷ s.handed)) × Keeps s s'

  abbrev pub received : Clock → Bool → World → Result (Unit {0}) × Database
  received c json_rpc s =
      record_inbox_message sealing c.inbox_nonce c.received_at
        (inbox_message w j decimal sealing agent h json_rpc) s.database

  received-Keeps :
      (c : Clock) (json_rpc : Bool) (s : World)
      → Keeps s (with_database s (received c json_rpc s).1)
  received-Keeps c json_rpc s x seen =
      Seen-rows x s.database (received c json_rpc s).1
        (inbox_keeps_rows sealing c.inbox_nonce c.received_at
          (inbox_message w j decimal sealing agent h json_rpc) s.database)
        seen

  first_delivery-Delivers :
      (c : Clock) (json_rpc : Bool) (s : World)
      → Delivers s (first_delivery w j decimal sealing agent c h json_rpc s).1
  unfolding first_delivery
  first_delivery-Delivers c json_rpc s = elim (Bool-cases (is_empty h.remote)) [
    | inl e ↦ rw e (inr (hand_over_hands c s), hand_over_keeps c s)
    | inr e ↦
        let s' = with_database s (received c json_rpc s).1 in
        elim (Result-cases (received c json_rpc s).0) [
          | inl (x, bad) ↦ rw (e, bad) (inl refl, received-Keeps c json_rpc s)
          | inr (x, good) ↦
              rw (e, good)
                (
                  inr (hand_over_hands c s'),
                  λ y seen. hand_over_keeps c s' y (received-Keeps c json_rpc s y seen),
                )
        ]
  ]

  -- Reserving a message.
  abbrev pub reserved : Clock → World → Result Bool × Database
  reserved c s =
      record_scoped_message_once c.recorded_at h.remote h.local 0 h.message_id c.reservation
        s.database

  reserved-Keeps : (c : Clock) (s : World) → Keeps s (with_database s (reserved c s).1)
  reserved-Keeps c s x seen =
      record-IsSeen x.remote x.local 0 x.message_id s.database c.recorded_at h.remote h.local 0
        h.message_id c.reservation seen

  reserved-Seen : (c : Clock) (s : World) → Seen h (reserved c s).1
  reserved-Seen c s =
      recorded-IsSeen h.remote h.local 0 h.message_id s.database c.recorded_at c.reservation

  reserved_unseen : (c : Clock) (s : World) → (reserved c s).0 ≡ ok true → Seen h s.database → ⊥
  reserved_unseen c s e seen =
      let refused =
        seen-refused h.remote h.local 0 h.message_id s.database c.recorded_at c.reservation seen in
      ground (arith, e, refused)

  Effect-after : (s t u : World) → t.handed ≡ s.handed → Keeps s t → Effect t u → Effect s u
  Effect-after s t u e keeps (none_handed f k) = none_handed (f ∙ e) (λ x seen. k x (keeps x seen))
  Effect-after s t u e keeps (one_handed f unseen seen k) =
      one_handed (f ∙ ap (λ hs. h ∷ hs) e) (λ x. unseen (keeps h x)) seen (λ x y. k x (keeps x y))

  first-Effect :
      (s t u : World)
      → t.handed ≡ s.handed
      → Keeps s t
      → (Seen h s.database → ⊥)
      → Seen h t.database
      → Delivers t u
      → Effect s u
  first-Effect s t u e keeps unseen seen (inl f, k) = none_handed (f ∙ e) (λ x y. k x (keeps x y))
  first-Effect s t u e keeps unseen seen (inr f, k) =
      one_handed (f ∙ ap (λ hs. h ∷ hs) e) unseen (k h seen) (λ x y. k x (keeps x y))

  abbrev run : ℕ → Clock → Bool → World → Option Reply × World
  run fuel c json_rpc s = deliver w j decimal sealing agent fuel c h json_rpc s

  pub deliver-Effect :
      (fuel : ℕ) (c : Clock) (json_rpc : Bool) (s : World)
      → Effect s (deliver w j decimal sealing agent fuel c h json_rpc s).1
  unfolding deliver
  deliver-Effect zero c json_rpc s = none_handed refl (λ x seen. seen)
  deliver-Effect (suc fuel) c json_rpc s =
      elim (Result-cases
        (get_scoped_deduplication decimal sealing h.remote h.local 0 h.message_id s.database)) [
          | inr (r, q) ↦
              let stays : (run (suc fuel) c json_rpc s).1 ≡ s = ground (arith, q) in
              rw stays (none_handed refl (λ x seen. seen))
          | inl (e, q) ↦
              let s' = with_database s (reserved c s).1 in
              elim (Result-cases (reserved c s).0) [
                | inl (x, bad) ↦
                    let stops : (run (suc fuel) c json_rpc s).1 ≡ s' = ground (arith, q, bad) in
                    rw stops (none_handed refl (reserved-Keeps c s))
                | inr (created, good) ↦ elim (Bool-cases created) [
                  | inl fresh ↦
                      let delivers : (run (suc fuel) c json_rpc s).1
                          ≡ (first_delivery w j decimal sealing agent c h json_rpc s').1 =
                        ground (arith, q, good, fresh) in
                      rw delivers (
                        first-Effect s s'
                          (first_delivery w j decimal sealing agent c h json_rpc s').1 refl
                          (reserved-Keeps c s) (reserved_unseen c s (good ∙ ap ok fresh))
                          (reserved-Seen c s) (first_delivery-Delivers c json_rpc s'))
                  | inr old ↦
                      let again : (run (suc fuel) c json_rpc s).1 ≡ (run fuel c json_rpc s').1 =
                        ground (arith, q, good, old) in
                      rw again (
                        Effect-after s s' (deliver w j decimal sealing agent fuel c h json_rpc s').1
                          refl (reserved-Keeps c s) (deliver-Effect fuel c json_rpc s'))
                ]
              ]
        ]

-- The message was not handed over, or once and is recorded.
pub data Once (k : Handed) (s : World) : Type 0 where
  never : times k s.handed ≡ 0 → Once k s
  once : times k s.handed ≡ 1 → Seen k s.database → Once k s

Once-times : (k : Handed) (s : World) → Once k s → times k s.handed ≤ 1
Once-times k s (never e) = omega (arith, e)
Once-times k s (once e seen) = omega (arith, e)

-- A request that comes for a local agent, with what its handling draws.
pub record Call : Type 0 where
  pub clock : Clock
  pub request : Request
  pub local : String
  pub json_rpc : Bool

module _ (w : Web) (j : Json) (decimal : ℕ → String) (sealing : Option Aead) (agent : Agent)
    (k : Handed) where
  Once-Effect :
      (h : Handed) (s s' : World) → Effect w j decimal sealing agent h s s' → Once k s → Once k s'
  unfolding times
  Once-Effect h s s' (none_handed e keeps) (never n) = never (ap (times k) e ∙ n)
  Once-Effect h s s' (none_handed e keeps) (once n seen) = once (ap (times k) e ∙ n) (keeps k seen)
  Once-Effect h s s' (one_handed e unseen seen keeps) (never n) = elim (Bool-cases (is_of k h)) [
    | inl own ↦ once (ap (times k) e ∙ ground (arith, own, n)) (Seen-key k h s'.database own seen)
    | inr other ↦ never (ap (times k) e ∙ ground (arith, other, n))
  ]
  Once-Effect h s s' (one_handed e unseen seen keeps) (once n was) = elim (Bool-cases (is_of k h)) [
    | inl own ↦ absurd (unseen (Seen-key_back k h s.database own was))
    | inr other ↦ once (ap (times k) e ∙ ground (arith, other, n)) (keeps k was)
  ]

  -- A message without an identifier is another one.
  Once-unnamed :
      (h : Handed) (s : World)
      → is_empty k.message_id ≡ false
      → is_empty h.message_id ≡ true
      → Once k s
      → Once k (record s { handed = h ∷ s.handed })
  unfolding times
  Once-unnamed h s named unnamed o = elim (Bool-cases (is_of k h)) [
    | inl own ↦ absurd (ground (arith, named, unnamed, (is_of-same k h own).2))
    | inr other ↦ elim o [
      | never n ↦ never (ground (arith, other, n))
      | once n was ↦ once (ground (arith, other, n)) was
    ]
  ]

  abbrev pub called : ℕ → Call → World → World
  called fuel c s =
      (serve_a2a_with_dedup w j decimal sealing agent fuel c.clock c.request c.local c.json_rpc s).1

  -- The handling of the calls one after the other.
  unfoldable pub run_calls : ℕ → List Call → World → World
  run_calls fuel [] s = s
  run_calls fuel (c ∷ cs) s = run_calls fuel cs (called fuel c s)

  Once-called :
      (fuel : ℕ) (c : Call) (s : World)
      → is_empty k.message_id ≡ false
      → Once k s
      → Once k (called fuel c s)
  unfolding serve_a2a_with_dedup forward times
  Once-called fuel c s named o =
      let h = handed_of w j decimal sealing agent c.request c.local c.json_rpc in
      elim (Bool-cases (is_empty h.message_id)) [
        | inl e ↦
            let hands : called fuel c s ≡ record s { handed = h ∷ s.handed } = ground (arith, e) in
            rw hands (Once-unnamed h s named e o)
        | inr e ↦
            let delivers : called fuel c s
                ≡ (deliver w j decimal sealing agent fuel c.clock h c.json_rpc s).1 =
              ground (arith, e) in
            rw delivers (
              Once-Effect h s (deliver w j decimal sealing agent fuel c.clock h c.json_rpc s).1
                (deliver-Effect w j decimal sealing agent h fuel c.clock c.json_rpc s) o)
      ]

  Once-run_calls :
      (fuel : ℕ) (cs : List Call) (s : World)
      → is_empty k.message_id ≡ false
      → Once k s
      → Once k (run_calls fuel cs s)
  unfolding run_calls
  Once-run_calls fuel [] s named o = o
  Once-run_calls fuel (c ∷ cs) s named o =
      Once-run_calls fuel cs (called fuel c s) named (Once-called fuel c s named o)

  -- From a state in which no message was handed over, whatever calls are handled, the local agent
  -- gets a message with an identifier at most once for its sender, its receiver and its identifier.
  pub handed_at_most_once :
      (fuel : ℕ) (cs : List Call) (d : Database)
      → is_empty k.message_id ≡ false
      → times k (run_calls fuel cs (record { database = d; handed = [] })).handed ≤ 1
  unfolding times
  handed_at_most_once fuel cs d named =
      Once-times k _
        (Once-run_calls fuel cs (record { database = d; handed = [] }) named (never refl))
