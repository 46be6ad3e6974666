-- ===== src/EventQueue/Newest.antt =====
-- What the bounded queue keeps: the newest events, in their order.
use mathlib.Core.List.{append_assoc, append-nil}
use bb_auth.Prelude.{
  ℕ, zero, suc, ◌-◌, ◌≤◌, ◌<◌, ◌≡◌, refl, ap, inl, inr, Bool-cases, List, [], ◌∷◌, ◌++◌, length,
  length-append, drop, leb, arith,
}
use bb_auth.Json.{Object}
use bb_auth.EventQueue.{EventQueue, create, enqueue, dequeue}

unfoldable pub enqueue_all : EventQueue → List Object → EventQueue
enqueue_all q [] = q
enqueue_all q (e ∷ es) = enqueue_all (enqueue q e) es

-- The last `n` entries.
abbrev pub newest : ℕ → List Object → List Object
newest n es = drop (length es - n) es

length-drop : (k : ℕ) (es : List Object) → length (drop k es) ≡ length es - k
length-drop zero es = omega arith
length-drop (suc k) [] = omega arith
length-drop (suc k) (e ∷ es) = omega (arith, length-drop k es)

dequeue-drop : (k : ℕ) (es : List Object) → dequeue (drop k es) ≡ drop (suc k) es
dequeue-drop zero [] = refl
dequeue-drop zero (e ∷ es) = refl
dequeue-drop (suc k) [] = refl
dequeue-drop (suc k) (e ∷ es) = dequeue-drop k es

drop-append : (k : ℕ) (es fs : List Object) → k ≤ length es → drop k (es ++ fs) ≡ drop k es ++ fs
drop-append zero es fs h = refl
drop-append (suc k) [] fs h = absurd (omega arith)
drop-append (suc k) (e ∷ es) fs h = drop-append k es fs (omega arith)

enqueue-newest :
    (q : EventQueue) (es : List Object) (e : Object)
    → 0 < q.max_size
    → q.event_queue ≡ newest q.max_size es
    → (enqueue q e).event_queue ≡ newest q.max_size (es ++ e ∷ [])
unfolding enqueue
enqueue-newest q es e h k = elim (Bool-cases (leb q.max_size (length q.event_queue))) [
  | inl full ↦
      rw (full, k, dequeue-drop (length es - q.max_size) es)
        (let long : q.max_size ≤ length es =
            ground (arith, length-drop (length es - q.max_size) es, ap length k) in
          let n : length (es ++ e ∷ []) - q.max_size ≡ suc (length es - q.max_size) =
            omega (arith, length-append es (e ∷ [])) in
          rw (n, drop-append (suc (length es - q.max_size)) es (e ∷ []) (omega arith)))
  | inr room ↦
      rw (room, k)
        (let short : length es < q.max_size =
            ground (arith, length-drop (length es - q.max_size) es, ap length k) in
          let m : length es - q.max_size ≡ 0 = omega arith in
          let n : length (es ++ e ∷ []) - q.max_size ≡ 0 =
            omega (arith, length-append es (e ∷ [])) in
          rw (m, n))
]

max_size-enqueue : (q : EventQueue) (e : Object) → (enqueue q e).max_size ≡ q.max_size
unfolding enqueue
max_size-enqueue q e = refl

enqueue_all-append :
    (q : EventQueue) (es fs : List Object)
    → 0 < q.max_size
    → q.event_queue ≡ newest q.max_size es
    → (enqueue_all q fs).event_queue ≡ newest q.max_size (es ++ fs)
unfolding enqueue_all enqueue
enqueue_all-append q es [] h k = rw (append-nil es) k
enqueue_all-append q es (f ∷ fs) h k =
    rw (max_size-enqueue q f, append_assoc es (f ∷ []) fs) at
      (enqueue_all-append (enqueue q f) (es ++ f ∷ []) fs (rw (max_size-enqueue q f) h)
        (rw (max_size-enqueue q f) (enqueue-newest q es f h k)))

drop-nil : (k : ℕ) → [] ≡ drop {A = Object} k []
drop-nil zero = refl
drop-nil (suc k) = refl

-- After any run of `enqueue` on a new queue of a positive size, the queue holds exactly the last
-- `max_size` events of the run, oldest first: overflow drops the oldest and nothing else.
pub enqueue_all-newest :
    (max_size : ℕ) (es : List Object)
    → 0 < max_size
    → (enqueue_all (create max_size) es).event_queue ≡ newest max_size es
unfolding create
enqueue_all-newest max_size es h =
    enqueue_all-append (create max_size) [] es h (drop-nil (0 - max_size))
