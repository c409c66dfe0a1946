-- ===== src/Stream/Handler/Subscriber.antt =====
-- What a subscriber of src/stream/handler.rs receives.
use ctwatch.Base.{
  ◌≡◌, refl, ap, sym, subst, ◌∙◌, false≢true, Bool, true, false, Bool-cases, inl, inr, List, [],
  ◌∷◌, ◌++◌, Option, filter, append_assoc, append-nil, ltb, ◌-◌,
}
use ctwatch.Base.Text.{Text, text}
use ctwatch.Stats.{incr_stream_dropped}
use ctwatch.Store.Db.{answered}
use ctwatch.Stream.Event.{CertEvent}
use ctwatch.Stream.Handler.{
  Frame, text_frame, ping, close_frame, Occurrence, received, lagged, channel_closed, heartbeat,
  pong, other_message, close_message, socket_error, Session, wanted, send, turn, proceed, loop,
}

-- the events among the frames, and those that were broadcast to the subscriber, also where the channel
-- has dropped them
abbrev pub sent_events : List Frame → List CertEvent
sent_events [] = []
sent_events (text_frame evt ∷ frames) = evt ∷ sent_events frames
sent_events (ping ∷ frames) = sent_events frames
sent_events (close_frame code reason ∷ frames) = sent_events frames

abbrev pub event_in : Occurrence → List CertEvent
event_in (received evt) = evt ∷ []
event_in (lagged lost) = lost
event_in o = []

abbrev pub received_events : List Occurrence → List CertEvent
received_events [] = []
received_events (o ∷ os) = event_in o ++ received_events os

sent_events-append :
    (xs ys : List Frame) → sent_events (xs ++ ys) ≡ sent_events xs ++ sent_events ys
sent_events-append [] ys = refl
sent_events-append (text_frame evt ∷ xs) ys = ap (λ t. evt ∷ t) (sent_events-append xs ys)
sent_events-append (ping ∷ xs) ys = sent_events-append xs ys
sent_events-append (close_frame code reason ∷ xs) ys = sent_events-append xs ys

filter-append :
    (f : CertEvent → Bool) (xs ys : List CertEvent)
    → filter f (xs ++ ys) ≡ filter f xs ++ filter f ys
filter-append f [] ys = refl
filter-append f (x ∷ xs) ys = elim (Bool-cases (f x)) [
  | inl e ↦ rw e (ap (λ t. x ∷ t) (filter-append f xs ys))
  | inr e ↦ rw e (filter-append f xs ys)
]

-- What is sent, and a rest that is not, are together what is wanted; the rest is nothing while the
-- loop goes on.
abbrev pub IsPrefixSent : List CertEvent → Session → Bool × Session → Type 0
IsPrefixSent evts s (running, s') =
    (rest : List CertEvent) × (sent_events s'.frames ++ rest ≡ sent_events s.frames ++ evts)
    × (running ≡ true → rest ≡ [])

stopped :
    (evts : List CertEvent) (s s' : Session)
    → sent_events s'.frames ≡ sent_events s.frames
    → IsPrefixSent evts s (false, s')
stopped evts s s' e = (evts, ap (λ x. x ++ evts) e, λ k. absurd (false≢true k))

nothing_sent :
    (b : Bool) (s s' : Session)
    → sent_events s'.frames ≡ sent_events s.frames
    → IsPrefixSent [] s (b, s')
nothing_sent b s s' e = ([], ap (λ x. x ++ []) e, λ _. refl)

send-other :
    (frame : Frame) (s : Session)
    → ((fs : List Frame) → sent_events (fs ++ frame ∷ []) ≡ sent_events fs)
    → sent_events (send frame s).1.frames ≡ sent_events s.frames
unfolding send
send-other frame s h = elim (Bool-cases (answered s.accepts)) [
  | inl e ↦ rw e (h s.frames)
  | inr e ↦ rw e refl
]

send-event : (evt : CertEvent) (s : Session) → IsPrefixSent (evt ∷ []) s (send (text_frame evt) s)
unfolding send
send-event evt s = elim (Bool-cases (answered s.accepts)) [
  | inl e ↦ rw e ([], append-nil _ ∙ sent_events-append s.frames (text_frame evt ∷ []), λ _. refl)
  | inr e ↦ rw e (evt ∷ [], refl, λ k. absurd (false≢true k))
]

turn-IsPrefixSent :
    (domains : Option (List Text)) (o : Occurrence) (s : Session)
    → IsPrefixSent (filter (wanted domains) (event_in o)) s (turn domains o s)
unfolding turn
turn-IsPrefixSent domains (received evt) s = elim (Bool-cases (wanted domains evt)) [
  | inl e ↦ rw e (send-event evt s)
  | inr e ↦ rw e (nothing_sent true s s refl)
]
turn-IsPrefixSent domains (lagged lost) s =
    let s' = (send (close_frame 1013 (text "subscriber lagged")) s).1 in
    stopped (filter (wanted domains) lost) s
      (record s' { counters = incr_stream_dropped s'.counters })
      (send-other (close_frame 1013 (text "subscriber lagged")) s
        (λ fs. sent_events-append fs _ ∙ append-nil _))
turn-IsPrefixSent domains channel_closed s = nothing_sent false s s refl
turn-IsPrefixSent domains (heartbeat now) s =
    elim (Bool-cases (ltb 90000000000 (now - s.last_pong))) [
      | inl e ↦ rw e (
          nothing_sent false s (send (close_frame 1011 (text "no pong")) s).1 (
            send-other (close_frame 1011 (text "no pong")) s
              (λ fs. sent_events-append fs _ ∙ append-nil _)))
      | inr e ↦ rw e (
          nothing_sent (send ping s).0 s (send ping s).1
            (send-other ping s (λ fs. sent_events-append fs _ ∙ append-nil _)))
    ]
turn-IsPrefixSent domains (pong now) s = nothing_sent true s (record s { last_pong = now }) refl
turn-IsPrefixSent domains other_message s = nothing_sent true s s refl
turn-IsPrefixSent domains close_message s = nothing_sent false s s refl
turn-IsPrefixSent domains socket_error s = nothing_sent false s s refl

more :
    (domains : Option (List Text)) (o : Occurrence) (os : List Occurrence)
    (now rest before : List CertEvent)
    → now ++ rest ≡ before ++ filter (wanted domains) (event_in o)
    → now ++ (rest ++ filter (wanted domains) (received_events os))
      ≡ before ++ filter (wanted domains) (received_events (o ∷ os))
more domains o os now rest before e =
    sym (append_assoc now rest (filter (wanted domains) (received_events os)))
    ∙ ap (λ x. x ++ filter (wanted domains) (received_events os)) e
    ∙ append_assoc before (filter (wanted domains) (event_in o))
        (filter (wanted domains) (received_events os))
    ∙ ap (λ x. before ++ x) (sym (filter-append (wanted domains) (event_in o) (received_events os)))

-- A subscriber receives a first part of the events that are broadcast and that its filter wants, in
-- their order and without a gap, also where the channel drops events that it is too slow for; and it has
-- received all of them, as long as the session goes on.
pub loop-IsPrefixSent :
    (domains : Option (List Text)) (os : List Occurrence) (s : Session)
    → IsPrefixSent (filter (wanted domains) (received_events os)) s (loop domains os s)
unfolding loop
loop-IsPrefixSent domains [] s = nothing_sent true s s refl
loop-IsPrefixSent domains (o ∷ os) s =
    after (turn domains o s) (turn-IsPrefixSent domains o s) (loop-IsPrefixSent domains os)
  where
    after :
        (r : Bool × Session)
        → IsPrefixSent (filter (wanted domains) (event_in o)) s r
        → ((s₁ : Session)
            → IsPrefixSent (filter (wanted domains) (received_events os)) s₁ (loop domains os s₁))
        → IsPrefixSent
            (filter (wanted domains) (received_events (o ∷ os)))
            s
            (proceed (loop domains os) r)
    after (true, s₁) (rest₁, e₁, all₁) ih =
        let (rest, e, all) = ih s₁ in
        (
          rest,
          e
              ∙ more domains o os (sent_events s₁.frames) [] (sent_events s.frames) (
                  subst
                    (λ x.
                      sent_events s₁.frames ++ x
                      ≡ sent_events s.frames ++ filter (wanted domains) (event_in o))
                    (all₁ refl) e₁),
          all,
        )
    after (false, s₁) (rest₁, e₁, all₁) ih = (
      rest₁ ++ filter (wanted domains) (received_events os),
      more domains o os (sent_events s₁.frames) rest₁ (sent_events s.frames) e₁,
      λ k. absurd (false≢true k),
    )
