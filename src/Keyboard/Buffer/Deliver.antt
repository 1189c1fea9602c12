-- ===== src/Keyboard/Buffer/Deliver.antt =====
-- Interrupts with a callback installed: each event goes to the callback at once, in order.
use mathlib.Core.Path.{subst}
use ssos.Base.{ℕ, ◌≡◌, refl, sym, arith, ◌∙◌, Option, some, List, [], ◌∷◌, ◌>>=◌, pos}
use ssos.Base.{Bool, true, false, inl, inr, Bool-cases, if◌then◌else◌}
use ssos.Keyboard.Keys.{Key, KeyboardEvent, key_none, key_unknown}
use ssos.Keyboard.Translate.{Translator, translate_scancode, translate_all}
use ssos.Keyboard.Buffer.{Keyboard, is_dropped, run_callback}
use ssos.Keyboard.Buffer.{keyboard_irq_handler}
use ssos.Keyboard.Buffer.Fifo.{Holds, store_event-enqueue, keyboard_get_event-Holds}

-- The keys that stand for no key.
unfoldable pub is_no_key : Key → Bool
is_no_key key_none = true
is_no_key key_unknown = true
is_no_key _ = false

is_dropped-is_no_key : (key : Key) → is_dropped key ≡ is_no_key key
unfolding is_dropped is_no_key
is_dropped-is_no_key key = ground arith

-- The events of a key.
unfoldable pub reported : List KeyboardEvent → List KeyboardEvent
reported [] = []
reported (e ∷ es) = if is_no_key e.keycode then reported es else e ∷ reported es

module _ {W : Type 0} where
  unfoldable pub deliver : (KeyboardEvent → W → W) → List KeyboardEvent → W → W
  deliver f [] w = w
  deliver f (e ∷ es) w = deliver f es (f e w)

  -- One interrupt for each scancode.
  unfoldable pub irq_all : List ℕ → Keyboard W → W → Option (Keyboard W × W)
  irq_all [] k w = some (k, w)
  irq_all (s ∷ l) k w = keyboard_irq_handler s k w >>= λ r. irq_all l r.0 r.1

  -- The keyboard between interrupts.
  pub record IsReady (f : KeyboardEvent → W → W) (t : Translator) (k : Keyboard W) : Type 0 where
    pub empty : Holds k []
    pub callback : k.keyboard_callback ≡ some f
    pub translator : k.translator ≡ t

module _ {W : Type 0} (f : KeyboardEvent → W → W) where
  run_callback_lem :
      (e : KeyboardEvent) (k : Keyboard W) (w : W)
      → Holds k (e ∷ [])
      → k.keyboard_callback ≡ some f
      → run_callback k.keyboard_callback k w ≡ some (record k { event_count = pos 0 }, f e w)
  unfolding run_callback
  run_callback_lem e k w holds call =
      subst (λ c. run_callback c k w ≡ some (record k { event_count = pos 0 }, f e w)) (sym call)
        (rw (keyboard_get_event-Holds k e [] holds).0 refl)

  -- What an interrupt does to a ready keyboard.
  abbrev Stepped : ℕ → Translator → Keyboard W → W → Type 0
  Stepped s t k w =
      (k' : Keyboard W) × (keyboard_irq_handler s k w
        ≡ some (k', deliver f (reported ((translate_scancode t s).1 ∷ [])) w))
      × IsReady f (translate_scancode t s).0 k'

  reported_step :
      (s : ℕ) (k : Keyboard W) (w : W)
      → Holds k []
      → k.keyboard_callback ≡ some f
      → (is_dropped (translate_scancode k.translator s).1.keycode ≡ false)
      → Stepped s k.translator k w
  unfolding keyboard_irq_handler deliver reported
  reported_step s k w holds call kept =
      let r = translate_scancode k.translator s in
      let k0 : Keyboard W = record k { translator = r.0 } in
      let empty : Holds k0 [] = record {
        size = holds.size;
        idx = holds.idx;
        fits = holds.fits;
        count = holds.count;
        view = refl;
      } in
      let (k1, stores, holds', same, call') = store_event-enqueue k0 r.1 [] empty in
      (
        record k1 { event_count = pos 0 },
        rw
            (
              kept,
              sym (is_dropped-is_no_key r.1.keycode) ∙ kept,
              stores,
              run_callback_lem r.1 k1 w holds' (call' ∙ call),
            )
            refl,
        record {
          empty = (keyboard_get_event-Holds k1 r.1 [] holds').1;
          callback = call' ∙ call;
          translator = same;
        },
      )

  dropped_step :
      (s : ℕ) (k : Keyboard W) (w : W)
      → Holds k []
      → k.keyboard_callback ≡ some f
      → (is_dropped (translate_scancode k.translator s).1.keycode ≡ true)
      → Stepped s k.translator k w
  unfolding keyboard_irq_handler deliver reported
  dropped_step s k w holds call dropped = (
    record k { translator = (translate_scancode k.translator s).0 },
    rw (dropped, sym (is_dropped-is_no_key (translate_scancode k.translator s).1.keycode) ∙ dropped)
        refl,
    record {
      empty = record {
        size = holds.size;
        idx = holds.idx;
        fits = holds.fits;
        count = holds.count;
        view = refl;
      };
      callback = call;
      translator = refl;
    },
  )

  irq_step : (s : ℕ) (t : Translator) (k : Keyboard W) (w : W) → IsReady f t k → Stepped s t k w
  irq_step s t k w h =
      subst (λ t. Stepped s t k w) h.translator
        (elim (Bool-cases (is_dropped (translate_scancode k.translator s).1.keycode)) [
          | inl dropped ↦ dropped_step s k w h.empty h.callback dropped
          | inr kept ↦ reported_step s k w h.empty h.callback kept
        ])

  deliver-cons :
      (e : KeyboardEvent) (es : List KeyboardEvent) (w : W)
      → deliver f (reported (e ∷ es)) w ≡ deliver f (reported es) (deliver f (reported (e ∷ [])) w)
  unfolding deliver reported
  deliver-cons e es w = elim (Bool-cases (is_no_key e.keycode)) [
    | inl p ↦ rw p refl
    | inr p ↦ rw p refl
  ]

  -- With a callback installed and no event waiting, interrupts for any scancodes do not fault: the
  -- callback gets exactly the events of the translation that are not KEY_NONE or KEY_UNKNOWN, each
  -- once and in order, and no event is left waiting.
  pub irq_all-deliver :
      (l : List ℕ) (t : Translator) (k : Keyboard W) (w : W)
      → IsReady f t k
      → (k' : Keyboard W) × (irq_all l k w
          ≡ some (k', deliver f (reported (translate_all t l).1) w))
        × IsReady f (translate_all t l).0 k'
  unfolding irq_all translate_all
  irq_all-deliver [] t k w h = (k, unfold deliver reported in refl, h)
  irq_all-deliver (s ∷ l) t k w h =
      let (k1, runs, ready) = irq_step s t k w h in
      let w1 = deliver f (reported ((translate_scancode t s).1 ∷ [])) w in
      let (k2, rest, ready') = irq_all-deliver l (translate_scancode t s).0 k1 w1 ready in
      (
        k2,
        rw
            (
              runs,
              rest,
              deliver-cons (translate_scancode t s).1 (translate_all (translate_scancode t s).0 l).1
                  w,
            )
            refl,
        ready',
      )
