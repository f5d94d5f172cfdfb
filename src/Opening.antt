-- ===== src/Opening.antt =====
-- How a call or a stream is opened: in Client by valueclient/client.go, in Server by
-- valueserver/serving_stream.go. The opener sends its request and waits for the first answer; meanwhile the
-- read loop and the pump take steps.
pub mod Client
pub mod CleansUp
pub mod Server
pub mod TearsDown
use mathlib.Core.Option
use value_rpc.Flow.StreamPump.{StreamPump, stop}
use value_rpc.Flow.StreamPump
use value_rpc.Prelude.{
  ◌≡◌, refl, Bool, true, false, ◌||◌, if◌then◌else◌, List, [], ◌∷◌, Option, none, some,
}

-- What the opener's own goroutine does, in order: the messages that it sends and the goroutines that it
-- starts. What the read loop and the pump's hook send meanwhile stands in the stream.
pub data Action : Type 0 where
  sends_request sends_cancel grants_credit watches streams_out : Action

-- A stream that was never made is none.
pub record Opened (T E : Type 0) : Type 0 where
  pub stream : Option T
  pub actions : List Action
  pub failure : Option E

-- A context that can never be cancelled is not watched.
unfoldable pub watch : Bool → List Action
watch cancellable = if cancellable then watches ∷ [] else []

unfoldable pub initial_credit : {P : Type 0} → Option P → List Action
initial_credit none = []
initial_credit (some p) = grants_credit ∷ []

-- The pump is told to stop, upon which its goroutine ends.
abbrev pub IsStopped : {P : Type 0} → Option (StreamPump P) → Type 0
IsStopped none = Unit {0}
IsStopped (some p) = p.stopped ≡ true

pub IsStopped-stop : {P : Type 0} (o : Option (StreamPump P)) → IsStopped (Option.map stop o)
unfolding stop
IsStopped-stop none = tt
IsStopped-stop (some p) = refl

pub IsStopped-close :
    {P : Type 0} (o : Option (StreamPump P))
    → IsStopped o
    → IsStopped (Option.map StreamPump.close o)
unfolding StreamPump.close
IsStopped-close none h = tt
IsStopped-close (some p) h = h

-- Whether a watcher, a streamOut or a window was left behind.
unfoldable pub lingers : List Action → Bool
lingers [] = false
lingers (sends_request ∷ xs) = lingers xs
lingers (sends_cancel ∷ xs) = lingers xs
lingers (x ∷ xs) = true
