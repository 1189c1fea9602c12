-- ===== src/Keyboard/Buffer/Fifo.antt =====
-- The event buffer is a queue of at most 24 events that drops its oldest when it is full.
use ssos.Base.{ℕ, suc, ◌+◌, ◌-◌, ◌%◌, ◌≤◌, ◌<◌, ◌≡◌, refl, sym, arith, ap, ◌∙◌}
use ssos.Base.{some, List, [], ◌∷◌, ◌++◌, pos, length, get_or, set, ltb, length-append}
use ssos.Base.{length-set, get_or-set_self, set?-eq-set, get_elem?-eq-get_or, min, if◌then◌else◌}
use mathlib.Core.List.{tail}
use native.Mathlib.Decide.{ℕ_discrete}
use ssos.Keyboard.Keys.{KeyboardEvent}
use ssos.Keyboard.Translate.{no_event}
use ssos.Keyboard.Buffer.{Keyboard, boot, event_idx, count_up, count_down, keyboard_get_event}
use ssos.Keyboard.Buffer.{store_event}
use ssos.Keyboard.Buffer.Entries.{entries, entries-snoc, entries-set, entries-turn}

-- The keyboard's buffer holds the events `q`, oldest first.
pub record Holds {W : Type 0} (k : Keyboard W) (q : List KeyboardEvent) : Type 0 where
  pub size : length k.keyboard_event_buff ≡ 24
  pub idx : k.event_buff_idx < 24
  pub fits : length q ≤ 24
  pub count : k.event_count ≡ pos (length q)
  pub view : q ≡ entries k.keyboard_event_buff (k.event_buff_idx + 24 - length q) (length q)

-- An event arrives: behind the others, in place of the oldest if there are 24.
abbrev pub enqueue : List KeyboardEvent → KeyboardEvent → List KeyboardEvent
enqueue [] e = e ∷ []
enqueue (x ∷ q) e = if ltb (length (x ∷ q)) 24 then (x ∷ q) ++ e ∷ [] else q ++ e ∷ []

pub boot-Holds : (W : Type 0) → Holds (boot W) []
boot-Holds W = record {
  size = refl;
  idx = omega arith;
  fits = omega arith;
  count = refl;
  view = refl;
}

-- Where the event goes, the older ones being a run of at most 23 entries.
stored_view :
    (buff : List KeyboardEvent) (i : ℕ) (e : KeyboardEvent) (t : List KeyboardEvent) (m : ℕ)
    → length buff ≡ 24
    → i < 24
    → m ≤ 23
    → t ≡ entries buff (i + 24 - m) m
    → t ++ e ∷ [] ≡ entries (set buff i e) ((i + 1) % 24 + 24 - suc m) (suc m)
stored_view buff i e t m size idx le view =
    rw
      (
        entries-snoc (set buff i e) ((i + 1) % 24 + 24 - suc m) m,
        entries-turn (set buff i e) ((i + 1) % 24 + 24 - suc m) (i + 24 - m) m (omega arith),
        entries-set buff i e (i + 24 - m) m (λ j lt p. omega arith),
        last,
        get_or-set_self buff i e no_event (omega arith),
        view,
      )
      refl
  where
    last : ((i + 1) % 24 + 24 - suc m + m) % 24 ≡ i
    last = omega arith

event_idx-pos : (i c : ℕ) → c ≤ 24 → event_idx i (pos c) ≡ some ((i + 24 - c) % 24)
unfolding event_idx
event_idx-pos i c h = ground arith

count_up-pos : (c : ℕ) → c ≤ 24 → count_up (pos c) ≡ pos (min (suc c) 24)
unfolding count_up
count_up-pos c h = ground arith

enqueue-full :
    (q : List KeyboardEvent) (e : KeyboardEvent) → length q ≡ 24 → enqueue q e ≡ tail q ++ e ∷ []
enqueue-full [] e h = absurd (omega arith)
enqueue-full (x ∷ q) e h = ground arith

enqueue-room :
    (q : List KeyboardEvent) (e : KeyboardEvent) → length q < 24 → enqueue q e ≡ q ++ e ∷ []
enqueue-room [] e h = refl
enqueue-room (x ∷ q) e h = ground arith

module _ {W : Type 0} (k : Keyboard W) where
  -- Where the buffer holds a queue that is not empty, `keyboard_get_event` returns the oldest event,
  -- changes only the count, and the buffer then holds the other events.
  pub keyboard_get_event-Holds :
      (e : KeyboardEvent) (q : List KeyboardEvent)
      → Holds k (e ∷ q)
      → (keyboard_get_event k ≡ some (e, record k { event_count = pos (length q) }))
        × Holds (record k { event_count = pos (length q) }) q
  unfolding keyboard_get_event count_down
  keyboard_get_event-Holds e q h =
      let start : ℕ = k.event_buff_idx + 24 - suc (length q) in
      let found : e ≡ get_or k.keyboard_event_buff (start % 24) no_event = cc h.view in
      let rest : q ≡ entries k.keyboard_event_buff (start + 1) (length q) = cc h.view in
      let next : start + 1 ≡ k.event_buff_idx + 24 - length q = omega arith in
      (
        rw
            (
              keyboard_get_event,
              h.count,
              event_idx-pos k.event_buff_idx (suc (length q)) h.fits,
              get_elem?-eq-get_or k.keyboard_event_buff (start % 24) no_event
                  (rw h.size (omega arith)),
              ← found,
            )
            refl,
        record {
          size = h.size;
          idx = h.idx;
          fits = omega arith;
          count = refl;
          view = rw next at rest;
        },
      )

  abbrev stored : KeyboardEvent → Keyboard W
  stored e = record k {
    keyboard_event_buff = set k.keyboard_event_buff k.event_buff_idx e;
    event_buff_idx = (k.event_buff_idx + 1) % 24;
    event_count = count_up k.event_count;
  }

  -- `t` is what the event is put behind.
  stored-Holds :
      (e : KeyboardEvent) (q t : List KeyboardEvent)
      → Holds k q
      → enqueue q e ≡ t ++ e ∷ []
      → min (suc (length q)) 24 ≡ suc (length t)
      → t ≡ entries k.keyboard_event_buff (k.event_buff_idx + 24 - length t) (length t)
      → Holds (stored e) (enqueue q e)
  stored-Holds e q t h behind room view =
      let long : length (t ++ e ∷ []) ≡ suc (length t) = omega (arith, length-append t (e ∷ [])) in
      rw behind (record {
        size = length-set k.keyboard_event_buff k.event_buff_idx e ∙ h.size;
        idx = omega arith;
        fits = omega arith;
        count = ap count_up h.count ∙ count_up-pos (length q) h.fits ∙ ap pos (room ∙ sym long);
        view = rw long (
            stored_view k.keyboard_event_buff k.event_buff_idx e t (length t) h.size h.idx
              (omega arith) view);
      })

  stored_full :
      (e : KeyboardEvent) (q : List KeyboardEvent)
      → Holds k q
      → length q ≡ 24
      → Holds (stored e) (enqueue q e)
  stored_full e [] h full = absurd (omega arith)
  stored_full e (x ∷ t) h full =
      let rest : t
          ≡ entries k.keyboard_event_buff (k.event_buff_idx + 24 - suc (length t) + 1) (length t) =
        cc h.view in
      let next : k.event_buff_idx + 24 - suc (length t) + 1 ≡ k.event_buff_idx + 24 - length t =
        omega arith in
      stored-Holds e (x ∷ t) t h (enqueue-full (x ∷ t) e full) (omega arith) (rw next at rest)

  -- Where the buffer holds a queue, `store_event` does not fault, and the buffer then holds the queue
  -- with the event behind the others, or in place of the oldest when 24 events wait; the translator
  -- and the callback are left alone.
  pub store_event-enqueue :
      (e : KeyboardEvent) (q : List KeyboardEvent)
      → Holds k q
      → (k' : Keyboard W) × (store_event k e ≡ some k')
        × Holds k' (enqueue q e)
        × (k'.translator ≡ k.translator)
        × (k'.keyboard_callback ≡ k.keyboard_callback)
  unfolding store_event
  store_event-enqueue e q h = (
    stored e,
    rw (set?-eq-set k.keyboard_event_buff k.event_buff_idx e (rw h.size h.idx)) refl,
    elim (ℕ_discrete (length q) 24) [
      | yes full ↦ stored_full e q h full
      | no room ↦ stored-Holds e q q h (enqueue-room q e (omega arith)) (omega arith) h.view
    ],
    refl,
    refl,
  )
