-- ===== src/Gateway/Messages.antt =====
-- internal/gateway/router.go, `a2a` and `serveA2AWithDedup`: a message is handed to the local agent,
-- and its answer is kept. The state is the database and the messages that were handed over, the
-- latest first.
pub mod Once
pub mod Kept
pub mod Replays
pub mod Answers
use snw_agent_link.Prelude.{
  ℕ, zero, suc, ◌+◌, ◌<>◌, ◌&&◌, ◌||◌, not, Bool, true, false, Option, none, some, List, [], ◌∷◌,
  String, same, is_empty, size, ◌==◌, length, if◌then◌else◌,
}
use snw_agent_link.Prelude.Bytes.{prefix_of}
use snw_agent_link.Errors.{Error, Result, ok, err}
use snw_agent_link.Time.{Time}
use snw_agent_link.Secure.{Aead}
use snw_agent_link.Model.{InboxMessage, DeduplicationRecord, AgentRegistration}
use snw_agent_link.Store.Tables.{Database}
use snw_agent_link.Store.Dedup.{
  get_scoped_deduplication, record_scoped_message_once, complete_scoped_message,
}
use snw_agent_link.Store.Inbox.{record_inbox_message}
use snw_agent_link.Http.{Request, Web}
use snw_agent_link.Gateway.Access.{max_body}

-- The status, the content type and the body of an answer.
pub record Reply : Type 0 where
  pub status : ℕ
  pub content_type : String
  pub body : String

-- A message that the local agent got.
pub record Handed : Type 0 where
  pub remote : String
  pub local : String
  pub message_id : String
  pub body : String

pub record World : Type 0 where
  pub database : Database
  pub handed : List Handed

-- messageId and contextId of a message object.
pub record MessageKeys : Type 0 where
  pub id : String
  pub context_id : String

-- The objects "message" and "params.message" of a body.
pub record Envelope : Type 0 where
  pub message : Option MessageKeys
  pub params_message : Option MessageKeys

-- encoding/json; a2a.NewTaskID is in `Clock`.
pub record Json : Type 0 where
  pub envelope : String → Option Envelope
  -- "id", and "result.id", where the body has the shape
  pub task_id : String → Option String
  pub result_id : String → Option String

-- The cipher of the store, fmt's `%d`, and what each call draws: the reserved task, the nonces of the
-- two sealings and the readings of time.Now().
pub record Clock : Type 0 where
  pub reservation : String
  pub inbox_nonce : String
  pub answer_nonce : String
  pub recorded_at : Time
  pub received_at : Time

-- The message object that counts: that of the parameters in JSON-RPC, if there is one.
unfoldable pub inbound_message : Json → String → Bool → Option MessageKeys
inbound_message j body json_rpc = elim (j.envelope body) [
  | none ↦ none
  | some e ↦ elim (if json_rpc then e.params_message else none) [
    | some m ↦ some m
    | none ↦ e.message
  ]
]

unfoldable pub inbound_message_id : Json → String → Bool → String
unfolding inbound_message
inbound_message_id j body json_rpc = elim (inbound_message j body json_rpc) [
  | none ↦ ""
  | some m ↦ m.id
]

unfoldable pub inbound_context_id : Json → String → Bool → String
unfolding inbound_message
inbound_context_id j body json_rpc = elim (inbound_message j body json_rpc) [
  | none ↦ ""
  | some m ↦ m.context_id
]

abbrev or_empty : Option String → String
or_empty none = ""
or_empty (some s) = s

unfoldable pub task_id_from_response : Json → String → String
task_id_from_response j body =
    if is_empty (or_empty (j.task_id body))
    then or_empty (j.result_id body)
    else or_empty (j.task_id body)

-- `http.Error`
abbrev pub failure : ℕ → String → Reply
failure status text = record {
  status = status;
  content_type = "text/plain; charset=utf-8";
  body = text <> "\n";
}

-- What the record of an earlier delivery answers: the kept answer, or that the task is at work.
unfoldable pub replayed : Web → DeduplicationRecord → Reply
replayed w r =
    if not (r.response_status == 0) && not (is_empty r.response_body)
    then record {
      status = r.response_status;
      content_type = r.response_type;
      body = r.response_body;
    }
    else record {
      status = 202;
      content_type = "application/json";
      body = "{\"id\":" <> w.quote r.task_id <> ",\"status\":{\"state\":\"working\"}}";
    }

-- The local agent: its answer to a message, when so many messages came before.
abbrev pub Agent : Type 0
Agent = ℕ → Handed → Reply

module _ (w : Web) (j : Json) (decimal : ℕ → String) (sealing : Option Aead) (agent : Agent) where
  -- `forwardA2A`
  unfoldable pub forward : Handed → World → Reply × World
  forward h s = (agent (length s.handed) h, record s { handed = h ∷ s.handed })

  abbrev pub inbox_message : Handed → Bool → InboxMessage
  unfolding inbound_context_id
  inbox_message h json_rpc =
      let context = inbound_context_id j h.body json_rpc in
      record {
        message_id = h.message_id;
        target_agent_id = h.local;
        source_agent_id = h.remote;
        context_id = if is_empty context then h.message_id else context;
        body = h.body;
        state = "";
        received_at = 0;
      }

  abbrev pub task_of : Clock → Reply → String
  task_of c reply =
      let t = task_id_from_response j reply.body in if is_empty t then c.reservation else t

  -- The answer is kept; an error of that is passed over.
  unfoldable pub hand_over : Clock → Handed → World → Reply × World
  unfolding forward task_id_from_response
  hand_over c h s =
      let (reply, s') = forward h s in
      (
        reply,
        record s' {
          database =
              (complete_scoped_message decimal sealing c.answer_nonce h.remote h.local 0
                h.message_id (task_of c reply) reply.status reply.content_type reply.body
                s'.database).1;
        },
      )

  -- The first delivery: into the inbox, then to the agent. The context is not empty, since it is the
  -- identifier of the message where the message names none.
  unfoldable pub first_delivery : Clock → Handed → Bool → World → Reply × World
  unfolding hand_over
  first_delivery c h json_rpc s =
      if is_empty h.remote
      then hand_over c h s
      else (let (r, d) =
            record_inbox_message sealing c.inbox_nonce c.received_at (inbox_message h json_rpc)
              s.database in
          elim r [
            | err e ↦ (failure 500 "inbox persistence unavailable", record s { database = d })
            | ok u ↦ hand_over c h (record s { database = d })
          ])

  -- The lookup, the reservation and, where the message was reserved meanwhile, the lookup again.
  -- Without fuel there is no answer.
  unfoldable pub deliver : ℕ → Clock → Handed → Bool → World → Option Reply × World
  unfolding first_delivery replayed
  deliver zero c h json_rpc s = (none, s)
  deliver (suc fuel) c h json_rpc s =
      elim (get_scoped_deduplication decimal sealing h.remote h.local 0 h.message_id s.database) [
        | ok r ↦ (some (replayed w r), s)
        | err e ↦
            let (r, d) =
              record_scoped_message_once c.recorded_at h.remote h.local 0 h.message_id c.reservation
                s.database in
            elim r [
              | err x ↦ (some (failure 500 "deduplication unavailable"), record s { database = d })
              | ok created ↦ elim created [
                | false ↦ deliver fuel c h json_rpc (record s { database = d })
                | true ↦
                    let (reply, s') = first_delivery c h json_rpc (record s { database = d }) in
                    (some reply, s')
              ]
            ]
      ]

  abbrev pub handed_of : Request → String → Bool → Handed
  unfolding inbound_message_id
  handed_of r local json_rpc =
      let body = prefix_of max_body r.body in
      record {
        remote = r.headers "X-SNW-Agent-ID";
        local = local;
        message_id = inbound_message_id j body json_rpc;
        body = body;
      }

  unfoldable pub serve_a2a_with_dedup :
      ℕ → Clock → Request → String → Bool → World → Option Reply × World
  unfolding deliver forward
  serve_a2a_with_dedup fuel c r local json_rpc s =
      let h = handed_of r local json_rpc in
      if is_empty h.message_id
      then (let (reply, s') = forward h s in (some reply, s'))
      else deliver fuel c h json_rpc s
