-- ===== src/Tests/Streams.antt =====
-- A signed stream of two events.
use snw_agent_link.Prelude.{same_refl, true, ◌≡◌, refl, List, [], ◌∷◌, String, same, is_empty, size}
use snw_agent_link.Prelude.Split.{is_free}
use snw_agent_link.Errors.{Result, ok, err}
use snw_agent_link.Platform.{Platform}
use snw_agent_link.Http.EventStream.{
  SignedSseEvent, valid_sse_cursor, valid_previous_hash, sign_sse_event, sign_events, verify_events,
  verify_events-sign_events,
}
use snw_agent_link.Tests.Toy.{alice}
use snw_agent_link.Tests.Web.{signing, sixty_four, toy_web}

abbrev thirty_two : String
thirty_two = "0123456789abcdef0123456789abcdef"

abbrev hashing : Platform
hashing = record signing { sha256 = λ s. thirty_two }

abbrev events : List (String × String)
events = ("data: a\n\n", "c1") ∷ ("data: b\n\n", "c2") ∷ []

abbrev Stream : Type 0
Stream = List (String × SignedSseEvent) × String

abbrev or_none : Result Stream → Stream
or_none (ok s) = s
or_none (err e) = ([], "")

abbrev stream : Stream
stream = or_none (sign_events hashing toy_web alice "" events)

stream_signed : sign_events hashing toy_web alice "" events ≡ ok (stream.0, stream.1)
unfolding sign_events sign_sse_event valid_sse_cursor is_empty is_free same
stream_signed = refl

hash_size : size thirty_two ≡ 32
unfolding size
hash_size = refl

signature_size : size sixty_four ≡ 64
unfolding size
signature_size = refl

alice_key_size : size alice.public_key ≡ 32
unfolding size
alice_key_size = refl

no_hash_before : valid_previous_hash "" ≡ true
unfolding valid_previous_hash is_empty same size
no_hash_before = refl

verify_events-sign_events_example :
    verify_events hashing toy_web alice.public_key "" stream.0 ≡ ok stream.1
verify_events-sign_events_example =
    verify_events-sign_events hashing toy_web alice (λ s. refl) (λ s. hash_size)
      (λ s. signature_size) (λ s. same_refl sixty_four) alice_key_size events "" stream.1 stream.0
      no_hash_before stream_signed
