-- ===== src/Timer/History.antt =====
-- The frames that a report sees.
use fantastic_octo_meme.Prelude.{
  ℕ, zero, suc, ◌+◌, ◌-◌, ◌%◌, ◌≡◌, refl, sym, ap, ◌∙◌, arith, List, [], ◌∷◌, ◌++◌, length, drop,
  subst, append_nil, append_cons, get_or,
}
use fantastic_octo_meme.Prelude.Recent.{tabulate, recent, Keeps, push-Keeps}
use fantastic_octo_meme.Timer.{
  Frametime, history_size, init, add_frame, set_waits, collect_from, collect,
}

-- What a program does with a tracker: it reports a frame, or its waits.
pub data Event : Type 0 where
  frame : ℕ → Event
  waits : ℕ → ℕ → ℕ → Event

abbrev pub handle : Frametime → Event → Frametime
handle ft (frame ns) = add_frame ft ns
handle ft (waits cpu gpu translate) = set_waits ft cpu gpu translate

abbrev pub handle_all : Frametime → List Event → Frametime
handle_all ft [] = ft
handle_all ft (e ∷ es) = handle_all (handle ft e) es

-- The durations reported, in order.
abbrev pub frames : List Event → List ℕ
frames [] = []
frames (frame ns ∷ es) = ns ∷ frames es
frames (waits cpu gpu translate ∷ es) = frames es

abbrev Holds : Frametime → List ℕ → Type 0
Holds ft ys = Keeps history_size 0 ft.history ft.pos ft.count ys

handle_all-Holds :
    (es : List Event) (ft : Frametime) (ys : List ℕ)
    → Holds ft ys
    → Holds (handle_all ft es) (ys ++ frames es)
handle_all-Holds [] ft ys h = subst (Holds ft) (sym (append_nil ys)) h
handle_all-Holds (frame ns ∷ es) ft ys h =
    subst (Holds (handle_all (add_frame ft ns) es)) (append_cons ys ns (frames es)) (
      handle_all-Holds es (add_frame ft ns) (ys ++ ns ∷ [])
        (push-Keeps history_size 0 ft.history ft.pos ft.count ys ns h))
handle_all-Holds (waits cpu gpu translate ∷ es) ft ys h =
    handle_all-Holds es (set_waits ft cpu gpu translate) ys h

collect-tabulate :
    (ft : Frametime) (i n : ℕ)
    → collect_from ft i n
      ≡ tabulate
          (λ k. get_or ft.history ((ft.pos + history_size - ft.count + k) % history_size) 0)
          i
          n
unfolding collect_from
collect-tabulate ft i zero = refl
collect-tabulate ft i (suc n) =
    ap (λ t. get_or ft.history ((ft.pos + history_size - ft.count + i) % history_size) 0 ∷ t)
      (collect-tabulate ft (i + 1) n)

init-Holds : (ft : Frametime) → length ft.history ≡ history_size → Holds (init ft) []
unfolding recent
init-Holds ft whole = (whole, omega arith, refl, refl)

collect-recent : (ft : Frametime) → collect ft ≡ recent history_size 0 ft.history ft.pos ft.count
unfolding recent
collect-recent ft = collect-tabulate ft 0 ft.count

-- After `init`, whatever the array held before, and any frames and waits, a report collects the
-- last 240 frames, in the order in which they were added.
pub collect_lem :
    (ft : Frametime) (es : List Event)
    → length ft.history ≡ history_size
    → collect (handle_all (init ft) es) ≡ drop (length (frames es) - 240) (frames es)
collect_lem ft es whole =
    let (_, _, _, holds) = handle_all-Holds es (init ft) [] (init-Holds ft whole) in
    collect-recent (handle_all (init ft) es) ∙ holds
