-- ===== src/Stream/Handler.antt =====
-- src/stream/handler.rs: one WebSocket subscriber. The `select!` of the loop is a list of what occurs,
-- in order, and each send to the socket succeeds or fails as `accepts` says.
pub mod Subscriber
pub mod Limit
pub mod Race
use ctwatch.Base.{
  ℕ, ◌+◌, ◌-◌, ◌%◌, Bool, true, false, not, ◌&&◌, ◌||◌, List, [], ◌∷◌, ◌++◌, Option, none, some,
  any, filter, map, ltb, leb, if◌then◌else◌,
}
use ctwatch.Base.Int.{ℤ, pos, as_i64, as_u64, u64_mod, ltb_ℤ}
use ctwatch.Base.Text.{Text, text, split, trim, to_ascii_lowercase, is_empty, contains}
use ctwatch.Stats.{Counters, subscribers, set_subscribers, incr_stream_dropped}
use ctwatch.Store.Db.{answered, later}
use ctwatch.Stream.Event.{CertEvent}

pub data Frame : Type 0 where
  text_frame : CertEvent → Frame
  ping : Frame
  close_frame : ℕ → Text → Frame

-- What the loop waits for. A tick and a pong come at a time, in nanoseconds. A lag says that the channel
-- has dropped events which this subscriber had not received yet. `lagged` carries them, so that they can
-- be spoken of; the loop does not see them.
pub data Occurrence : Type 0 where
  received : CertEvent → Occurrence
  lagged : List CertEvent → Occurrence
  channel_closed : Occurrence
  heartbeat : ℕ → Occurrence
  pong : ℕ → Occurrence
  other_message close_message socket_error : Occurrence

-- `frames` is what the socket took, oldest first.
pub record Session : Type 0 where
  pub frames : List Frame
  pub last_pong : ℕ
  pub accepts : List Bool
  pub counters : Counters

-- What `upgrade` answers.
pub data Upgrade : Type 0 where
  service_unavailable : Upgrade
  too_many_requests : Upgrade
  accepted : Option (List Text) → Upgrade

-- the texts between the commas, trimmed, lowercase, and not empty
unfoldable pub domains_of : Text → List Text
unfolding split trim to_ascii_lowercase
domains_of s =
    filter (λ d. not (is_empty d)) (map (λ d. to_ascii_lowercase (trim d)) (split b',' s))

-- `subs as usize` on 64 bits
unfoldable pub upgrade : Bool → ℕ → Option Text → Counters → Upgrade
unfolding domains_of
upgrade stream_enabled stream_max_subscribers domains c =
    if not stream_enabled
    then service_unavailable
    else if leb stream_max_subscribers (as_u64 (subscribers c))
    then too_many_requests
    else elim domains [ none ↦ accepted none | some s ↦ accepted (some (domains_of s)) ]

unfoldable pub wanted : Option (List Text) → CertEvent → Bool
wanted none evt = true
wanted (some f) evt = any (λ d. contains f d) evt.cert.registered_domains

-- Whether the socket took the frame.
unfoldable pub send : Frame → Session → Bool × Session
unfolding answered later
send frame s =
    let s' = record s { accepts = later s.accepts } in
    if answered s.accepts
    then (true, record s' { frames = s.frames ++ frame ∷ [] })
    else (false, s')

-- One turn of the loop; `true` where it goes on.
unfoldable pub turn : Option (List Text) → Occurrence → Session → Bool × Session
unfolding wanted
turn domains (received evt) s = if wanted domains evt then send (text_frame evt) s else (true, s)
turn domains (lagged lost) s =
    let s' = (send (close_frame 1013 (text "subscriber lagged")) s).1 in
    (false, record s' { counters = incr_stream_dropped s'.counters })
turn domains channel_closed s = (false, s)
turn domains (heartbeat now) s =
    if ltb 90000000000 (now - s.last_pong)
    then (false, (send (close_frame 1011 (text "no pong")) s).1)
    else send ping s
turn domains (pong now) s = (true, record s { last_pong = now })
turn domains other_message s = (true, s)
turn domains close_message s = (false, s)
turn domains socket_error s = (false, s)

-- The loop, while something occurs.
abbrev pub proceed : (Session → Bool × Session) → Bool × Session → Bool × Session
proceed k (true, s) = k s
proceed k (false, s) = (false, s)

unfoldable pub loop : Option (List Text) → List Occurrence → Session → Bool × Session
loop domains [] s = (true, s)
loop domains (o ∷ occurrences) s = proceed (loop domains occurrences) (turn domains o s)

abbrev succ_i64 : ℤ → ℤ
succ_i64 n = as_i64 ((as_u64 n + 1) % u64_mod)

abbrev pred_i64 : ℤ → ℤ
pred_i64 n = as_i64 ((as_u64 n + (u64_mod - 1)) % u64_mod)

abbrev max_0 : ℤ → ℤ
max_0 n = if ltb_ℤ n (pos 0) then pos 0 else n

-- The subscribers are read, and then stored.
unfoldable pub enter : Counters → Counters
enter c = set_subscribers (succ_i64 (subscribers c)) c

unfoldable pub leave : Counters → Counters
leave c = set_subscribers (max_0 (pred_i64 (subscribers c))) c

-- A session from its start until it ends; `none` if it has not ended. No other session comes between.
unfoldable pub handle :
    Option (List Text) → List Occurrence → ℕ → List Bool → Counters → Option Session
unfolding enter leave
handle domains occurrences now accepts c =
    let start : Session = record {
      frames = [];
      last_pong = now;
      accepts = accepts;
      counters = enter c;
    } in
    let (running, s) = loop domains occurrences start in
    if running then none else some (record s { counters = leave s.counters })
