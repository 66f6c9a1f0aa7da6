-- ===== src/Tests/Yxc.antt =====
-- Tests of the HTTP client and of the event subscriber, and the theorems about them at concrete inputs.
use yamaha_cli.Prelude.{
  ◌*◌, Bool, true, List, [], ◌∷◌, Option, none, some, ℤ, pos, negsuc, refl, if◌then◌else◌,
}
use yamaha_cli.Text.{Bytes, codes, equal}
use yamaha_cli.Yxc.Client.{Answer, failed, replied, Turn, Client, do_method}
use yamaha_cli.Yxc.Client.Retry.{Asked, do_method-Asked}
use yamaha_cli.Yxc.Client.Spacing.{WellSpaced, do_method-WellSpaced}
use yamaha_cli.Yxc.Errors.{Leaf, Failure}
use yamaha_cli.Yxc.Events.{
  Subscriber, State, Input, packet, step, start, Reaches, begin, take, second,
}
use yamaha_cli.Yxc.Events.Machine.{Story, Reaches-Story}
use yamaha_cli.Yxc.Zone.{ToneControlArg}

-- A decoder of response codes that knows one document of each kind.
abbrev code_of : Bytes → Option ℤ
code_of body =
    if equal body (codes "ok")
    then some (pos 0)
    else if equal body (codes "busy")
    then some (pos 5)
    else none

abbrev reset : Failure
reset = record { leaf = Leaf.other; is_net = true; message = codes "connection reset by peer" }

abbrev turn : Answer → Turn
turn a = record {
  done_in_wait = none;
  took = 7;
  answer = a;
  context_after = none;
  done_in_pause = none;
}

abbrev client : List Turn → Client
client turns = record {
  clock = 1000;
  last_call = none;
  event_port = 5000;
  turns = turns;
  requests = [];
}

abbrev flaky : Client
flaky = client (turn (failed none reset) ∷ turn (replied 200 (codes "ok")) ∷ [])

do_method-Asked_example :
    Asked
      (codes "main/getStatus")
      []
      0
      flaky
      (do_method code_of (codes "main/getStatus") [] 0 flaky).1
do_method-Asked_example = do_method-Asked code_of (codes "main/getStatus") [] 0 flaky

flaky-WellSpaced : WellSpaced flaky
flaky-WellSpaced = record { spaced = refl; past = tt; undisturbed = (refl, (refl, tt)) }

do_method-WellSpaced_example : WellSpaced (do_method code_of (codes "main/getStatus") [] 0 flaky).1
do_method-WellSpaced_example =
    do_method-WellSpaced code_of (codes "main/getStatus") [] 0 flaky flaky-WellSpaced

abbrev no_tone : ToneControlArg
no_tone = record { mode = []; bass = none; treble = none }

abbrev prepares_main : Bytes → Bool
prepares_main z = equal z (codes "main")

abbrev answering : Client
answering = client (turn (replied 200 (codes "ok")) ∷ [])

abbrev main_zone : List Bytes
main_zone = codes "main" ∷ []

abbrev begun : State
begun = start code_of main_zone (pos second) (pos (60 * second)) (7 ∷ []) answering

abbrev or_state : State → Option State → State
or_state s none = s
or_state s (some t) = t

abbrev by_stranger : Input
by_stranger = packet (codes "{}") 9

abbrev after_packet : State
after_packet =
    or_state begun (
      step code_of main_zone (pos second) (pos (60 * second)) (7 ∷ []) begun.phase by_stranger
        begun)

reached : Reaches code_of main_zone (pos second) (pos (60 * second)) (7 ∷ []) answering after_packet
unfolding step start
reached = take by_stranger begin refl

Reaches-Story_example : Story (7 ∷ []) after_packet.phase after_packet.emitted
Reaches-Story_example =
    Reaches-Story (7 ∷ []) code_of main_zone (pos second) (pos (60 * second)) answering after_packet
      reached

-- A minimum above the default maximum, which is not set.
abbrev eager : Subscriber
eager = record {
  backoff_min = pos (90 * second);
  backoff_max = pos 0;
  silent_after = negsuc 4;
  renew_interval = pos 0;
}
