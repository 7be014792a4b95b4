-- ===== src/Gpu/Streams/Sound.antt =====
-- No run of the health streams panics: cmd/kubelet-gpu-plugin/resourceHealthPodStatus.go.
use intel_resource_drivers_f.Base.{
  ℕ, suc, ◌≡◌, ◌≤◌, refl, subst, ap, inl, inr, Bool, true, false, List, [], ◌∷◌, ◌++◌, any, Option,
  none, some, length, length-append, ltb, ◌==◌, if◌then◌else◌, All, arith, Bool-cases,
}
use intel_resource_drivers_f.Gpu.Streams.{
  Response, Channel, Streams, capacity, set_channel, remove, register_health_stream,
  unregister_health_stream, send, broadcast, broadcast_health_update, watch, receive,
}

-- The channel is open, and its buffer is not over its capacity.
abbrev pub IsOpen : (ℕ → Channel) → ℕ → Type 0
IsOpen channels id = ((channels id).closed ≡ false) × (length (channels id).buffer ≤ capacity)

-- The channels of all streams of the driver are open.
abbrev pub IsSound : Streams → Type 0
IsSound s = All (IsOpen s.channels) s.health_streams

-- What calls, updates, clients and contexts do; a call whose context ends unregisters its stream.
pub data Step : Type 0 where
  called : Bool → Step
  updated : Response → Step
  received : ℕ → Bool → Step
  cancelled : ℕ → Step

unfoldable pub step : Step → Streams → Option Streams
step (Step.called sent) s = watch sent s
step (Step.updated response) s = broadcast_health_update response s
step (Step.received id sent) s = receive id sent s
step (Step.cancelled id) s = unregister_health_stream id s

unfoldable pub run : List Step → Streams → Option Streams
run [] s = some s
run (x ∷ xs) s = elim (step x s) [ none ↦ none | some t ↦ run xs t ]

-- It does not panic, and leaves the streams sound.
abbrev pub Succeeds : Option Streams → Type 0
Succeeds none = ⊥
Succeeds (some s) = IsSound s

pub Succeeds-result : (o : Option Streams) → Succeeds o → (t : Streams) × (o ≡ some t) × IsSound t
Succeeds-result none h = absurd h
Succeeds-result (some t) h = (t, refl, h)

module _ {P Q : ℕ → Type 0} where
  All-weaken : (xs : List ℕ) → ((j : ℕ) → P j → Q j) → All P xs → All Q xs
  All-weaken [] f h = tt
  All-weaken (x ∷ xs) f h = (f x h.0, All-weaken xs f h.1)

  All-remove :
      (id : ℕ) (xs : List ℕ)
      → ((j : ℕ) → (j == id) ≡ false → P j → Q j)
      → All P xs
      → All Q (remove id xs)
  All-remove id [] f h = tt
  All-remove id (x ∷ xs) f h = elim (Bool-cases (x == id)) [
    | inl t ↦ rw t (All-remove id xs f h.1)
    | inr t ↦ rw t (f x t h.0, All-remove id xs f h.1)
  ]

All-any : (P : ℕ → Type 0) (id : ℕ) (xs : List ℕ) → any (λ j. j == id) xs ≡ true → All P xs → P id
All-any P id [] e h = absurd (ground (arith, e))
All-any P id (x ∷ xs) e h = elim (Bool-cases (x == id)) [
  | inl t ↦ let same : x ≡ id = ground (arith, t) in subst P same h.0
  | inr t ↦ All-any P id xs (ground (arith, e, t)) h.1
]

IsOpen-set :
    (id j : ℕ) (ch : Channel) (channels : ℕ → Channel)
    → ch.closed ≡ false
    → length ch.buffer ≤ capacity
    → IsOpen channels j
    → IsOpen (set_channel id ch channels) j
IsOpen-set id j ch channels o l h = elim (Bool-cases (j == id)) [
  | inl t ↦ rw t (o, l)
  | inr t ↦ rw t h
]

register-IsSound : (s : Streams) → IsSound s → IsSound (register_health_stream s)
unfolding register_health_stream
register-IsSound s h =
    (ground arith, All-remove (suc s.health_stream_id) s.health_streams (λ j n o. rw n o) h)

unregister-Succeeds : (id : ℕ) (s : Streams) → IsSound s → Succeeds (unregister_health_stream id s)
unfolding unregister_health_stream
unregister-Succeeds id s h = elim (Bool-cases (any (λ j. j == id) s.health_streams)) [
  | inr t ↦ rw t h
  | inl t ↦
      rw (t, (All-any (IsOpen s.channels) id s.health_streams t h).0)
        (All-remove id s.health_streams (λ j n o. rw n o) h)
]

send-IsOpen :
    (response : Response) (ch : Channel)
    → ch.closed ≡ false
    → length ch.buffer ≤ capacity
    → (ch' : Channel) × (send response ch ≡ some ch')
      × (ch'.closed ≡ false)
      × (length ch'.buffer ≤ capacity)
unfolding send
send-IsOpen response ch o l = elim (Bool-cases (ltb (length ch.buffer) capacity)) [
  | inr t ↦ (ch, rw (o, t) refl, o, l)
  | inl t ↦ (
    record ch { buffer = ch.buffer ++ (response ∷ []) },
    rw (o, t) refl,
    o,
    ground (arith, t, length-append ch.buffer (response ∷ [])),
  )
]

broadcast-IsOpen :
    (response : Response) (ids : List ℕ) (channels : ℕ → Channel)
    → All (IsOpen channels) ids
    → (after : ℕ → Channel) × (broadcast response ids channels ≡ some after)
      × ((j : ℕ) → IsOpen channels j → IsOpen after j)
unfolding broadcast
broadcast-IsOpen response [] channels h = (channels, refl, λ j o. o)
broadcast-IsOpen response (id ∷ ids) channels h =
    let (ch, e, o, l) = send-IsOpen response (channels id) h.0.0 h.0.1 in
    let keeps = λ (j : ℕ). IsOpen-set id j ch channels o l in
    let (after, f, g) =
      broadcast-IsOpen response ids (set_channel id ch channels) (All-weaken ids keeps h.1) in
    (after, rw (broadcast, e) f, λ j k. g j (keeps j k))

pub update-Succeeds :
    (response : Response) (s : Streams) → IsSound s → Succeeds (broadcast_health_update response s)
unfolding broadcast_health_update
update-Succeeds response s h =
    let (after, e, g) = broadcast-IsOpen response s.health_streams s.channels h in
    rw (broadcast_health_update, e) (All-weaken s.health_streams g h)

watch-Succeeds : (sent : Bool) (s : Streams) → IsSound s → Succeeds (watch sent s)
unfolding watch
watch-Succeeds true s h = register-IsSound s h
watch-Succeeds false s h =
    unregister-Succeeds (register_health_stream s).health_stream_id (register_health_stream s)
      (register-IsSound s h)

take_one-IsOpen :
    (id : ℕ) (response : Response) (rest : List Response) (channels : ℕ → Channel)
    → (channels id).buffer ≡ response ∷ rest
    → (j : ℕ) → IsOpen channels j
    → IsOpen (set_channel id (record (channels id) { buffer = rest }) channels) j
take_one-IsOpen id response rest channels e j h = elim (Bool-cases (j == id)) [
  | inr t ↦ rw t h
  | inl t ↦
      let same : j ≡ id = ground (arith, t) in
      let (o, l) = subst (IsOpen channels) same h in
      let shorter : length (channels id).buffer ≡ suc (length rest) = ap length e in
      rw t (o, omega (arith, l, shorter))
]

either-Succeeds :
    (b : Bool) (o p : Option Streams) → Succeeds o → Succeeds p → Succeeds (if b then o else p)
either-Succeeds true o p h k = h
either-Succeeds false o p h k = k

receive-Succeeds : (id : ℕ) (sent : Bool) (s : Streams) → IsSound s → Succeeds (receive id sent s)
unfolding receive
receive-Succeeds id sent s h = go (s.channels id).buffer refl
  where
    go : (buffer : List Response) → (s.channels id).buffer ≡ buffer → Succeeds (receive id sent s)
    go (response ∷ rest) e =
        let s' : Streams = record s {
          channels = set_channel id (record (s.channels id) { buffer = rest }) s.channels;
        } in
        let kept : IsSound s' =
          All-weaken s.health_streams (take_one-IsOpen id response rest s.channels e) h in
        rw (e, receive)
          (either-Succeeds sent (some s') (unregister_health_stream id s') kept
            (unregister-Succeeds id s' kept))
    go [] e =
        let s' : Streams = record s { health_streams = remove id s.health_streams } in
        rw (e, receive)
          (either-Succeeds (s.channels id).closed (unregister_health_stream id s') (some s)
            (unregister-Succeeds id s' (All-remove id s.health_streams (λ j n o. o) h)) h)

step-Succeeds : (x : Step) (s : Streams) → IsSound s → Succeeds (step x s)
unfolding step
step-Succeeds (Step.called sent) s h = watch-Succeeds sent s h
step-Succeeds (Step.updated response) s h = update-Succeeds response s h
step-Succeeds (Step.received id sent) s h = receive-Succeeds id sent s h
step-Succeeds (Step.cancelled id) s h = unregister-Succeeds id s h

-- In any order of calls of `NodeWatchResources`, health updates, reads of streams, clients that fail
-- and contexts that end, no step panics by a send to a closed channel or by a second close of one,
-- and after it the channel of each registered stream is open with at most 10 updates in its buffer,
-- if this was so before.
pub run-Succeeds : (xs : List Step) (s : Streams) → IsSound s → Succeeds (run xs s)
unfolding run
run-Succeeds [] s h = h
run-Succeeds (x ∷ xs) s h = go (step x s) (step-Succeeds x s h) (run-Succeeds xs)
  where
    go :
        (o : Option Streams)
        → Succeeds o
        → ((t : Streams) → IsSound t → Succeeds (run xs t))
        → Succeeds (elim o [ none ↦ none | some t ↦ run xs t ])
    go none k later = k
    go (some t) k later = later t k
