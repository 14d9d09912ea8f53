-- ===== src/Stream/Refine.antt =====
-- The ring buffer of include/can_frame_stream.h seen as a bounded list of frames.
use scdtr_project.Prelude.{
  ℕ, zero, suc, ◌+◌, ◌%◌, ◌<◌, ◌≡◌, refl, ap, ap₂, ◌∙◌, Bool, true, false, Option, none, some, List,
  [], ◌∷◌, ◌++◌, arith, ltb, if◌then◌else◌, length, get_or, set, get_or-set_self, get_or-set_ne,
}
use scdtr_project.Frame.{Frame}
use scdtr_project.Stream.{FrameStream, buff_size, blank, put, get}
use scdtr_project.Stream.Inv.{IsValid, pending, put-IsValid, get-IsValid}

-- The `n` frames from slot `i` on, going round after the last slot.
abbrev pub slots : List Frame → ℕ → ℕ → List Frame
slots buf i zero = []
slots buf i (suc n) = get_or buf i blank ∷ slots buf ((i + 1) % buff_size) n

-- What a client sees of a stream, oldest frame first.
abbrev pub contents : FrameStream → List Frame
contents s = slots s.cf_buffer s.read_index (pending s)

-- The specification: a bounded queue.
unfoldable pub enqueue : List Frame → Frame → Bool × List Frame
enqueue q f = if ltb (length q) buff_size then (true, q ++ f ∷ []) else (false, q)

unfoldable pub dequeue : List Frame → Option Frame × List Frame
dequeue [] = (none, [])
dequeue (f ∷ q) = (some f, q)

length-slots : (buf : List Frame) (i n : ℕ) → length (slots buf i n) ≡ n
length-slots buf i zero = refl
length-slots buf i (suc n) = ap suc (length-slots buf ((i + 1) % buff_size) n)

pub length-contents : (s : FrameStream) → length (contents s) ≡ pending s
length-contents s = length-slots s.cf_buffer s.read_index (pending s)

-- A frame written into the slot after a run extends the run.
slots-set :
    (buf : List Frame) (f : Frame) (i n w : ℕ)
    → length buf ≡ buff_size
    → i < buff_size
    → n < buff_size
    → w ≡ (i + n) % buff_size
    → slots (set buf w f) i (suc n) ≡ slots buf i n ++ f ∷ []
slots-set buf f i zero w len hi hn e =
    let here : w ≡ i = omega arith in
    ap (λ x. x ∷ [])
      (ap (λ k. get_or (set buf k f) i blank) here ∙ get_or-set_self buf i f blank (omega arith))
slots-set buf f i (suc n) w len hi hn e =
    ap₂ ◌∷◌ (get_or-set_ne buf f blank (omega arith))
      (slots-set buf f ((i + 1) % buff_size) n w len (omega arith) (omega arith) (omega arith))

-- `put` answers and changes the contents as the queue does.
pub put_refines :
    {s : FrameStream} (f : Frame)
    → IsValid s
    → ((put s f).0, contents (put s f).1) ≡ enqueue (contents s) f
unfolding put enqueue
put_refines {s} f v =
    ground
      (arith, length-contents s, slots-set s.cf_buffer f s.read_index (pending s) s.write_index)

get-some :
    {s : FrameStream} (n : ℕ)
    → IsValid s
    → pending s ≡ suc n
    → ((get s).0 ≡ some (get_or s.cf_buffer s.read_index blank))
      × (pending (get s).1 ≡ n)
      × ((get s).1.read_index ≡ (s.read_index + 1) % buff_size)
unfolding get
get-some n v e = ground arith

cf_buffer-get : (s : FrameStream) → (get s).1.cf_buffer ≡ s.cf_buffer
unfolding get
cf_buffer-get s = ground arith

get-none : {s : FrameStream} → IsValid s → pending s ≡ 0 → get s ≡ (none, s)
unfolding get
get-none v e = ground arith

get-slots :
    {s : FrameStream} (n : ℕ)
    → IsValid s
    → pending s ≡ n
    → ((get s).0, contents (get s).1) ≡ dequeue (slots s.cf_buffer s.read_index n)
unfolding dequeue
get-slots {s} zero v e =
    let g = get-none v e in
    ap (λ r. (r.0, contents r.1)) g ∙ ap (λ n. (none, slots s.cf_buffer s.read_index n)) e
get-slots {s} (suc n) v e =
    let (answer, count, index) = get-some n v e in
    λ i. (answer i, slots (cf_buffer-get s i) (index i) (count i))

-- `get` answers and changes the contents as the queue does.
pub get_refines :
    {s : FrameStream} → IsValid s → ((get s).0, contents (get s).1) ≡ dequeue (contents s)
get_refines {s} v = get-slots (pending s) v refl

-- What the interrupt and the main loop do to the stream, in the order in which it happens.
pub data Access : Type 0 where
  puts : Frame → Access
  gets : Access

-- Each access answers with an accepted flag or with a frame.
abbrev pub Answer : Type 0
Answer = Bool × Option Frame

unfoldable pub run : FrameStream → List Access → List Answer
run s [] = []
run s (puts f ∷ more) = ((put s f).0, none) ∷ run (put s f).1 more
run s (gets ∷ more) = (true, (get s).0) ∷ run (get s).1 more

unfoldable pub run_queue : List Frame → List Access → List Answer
run_queue q [] = []
run_queue q (puts f ∷ more) = ((enqueue q f).0, none) ∷ run_queue (enqueue q f).1 more
run_queue q (gets ∷ more) = (true, (dequeue q).0) ∷ run_queue (dequeue q).1 more

-- No interleaving of interrupts and reads tells a valid stream from the bounded queue.
pub run_refines :
    (accesses : List Access) {s : FrameStream}
    → IsValid s
    → run s accesses ≡ run_queue (contents s) accesses
unfolding run run_queue
run_refines [] v = refl
run_refines (puts f ∷ more) {s} v =
    let e = put_refines f v in
    ap₂ ◌∷◌ (ap (λ p. (p.0, none)) e)
      (run_refines more (put-IsValid f v) ∙ ap (λ p. run_queue p.1 more) e)
run_refines (gets ∷ more) {s} v =
    let e = get_refines v in
    ap₂ ◌∷◌ (ap (λ p. (true, p.0)) e)
      (run_refines more (get-IsValid v) ∙ ap (λ p. run_queue p.1 more) e)
