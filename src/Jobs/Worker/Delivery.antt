-- ===== src/Jobs/Worker/Delivery.antt =====
-- That a queued job reaches a worker and starts.
use crypto_bot_quant.Base.{
  append_assoc, suc, zero, ℕ, String, Option, none, some, List, [], ◌∷◌, ◌++◌, ◌≡◌, refl, sym, ap,
  ◌∙◌, arith, length,
}
use crypto_bot_quant.Base.Dict.{Dict, insert, get_or}
use crypto_bot_quant.Jobs.Queue.{Store}
use crypto_bot_quant.Jobs.Worker.{split_last, rpoplpush}
use crypto_bot_quant.Jobs.Worker.Fencing.{lookup-put}

-- n pops of a queue by a worker.
unfoldable pub pops : ℕ → String → String → Store → Store
pops zero key worker s = s
pops (suc n) key worker s = pops n key worker (rpoplpush key worker s).0

split_last-append :
    (x : String) (xs : List String) → let (left, id) = split_last x xs in left ++ (id ∷ []) ≡ x ∷ xs
unfolding split_last
split_last-append x [] = refl
split_last-append x (y ∷ ys) = ap (λ l. x ∷ l) (split_last-append y ys)

split_last-length : (x : String) (xs : List String) → length (split_last x xs).0 ≡ length xs
unfolding split_last
split_last-length x [] = refl
split_last-length x (y ∷ ys) = ap suc (split_last-length y ys)

get_or-put :
    (key : String) (l : List String) (d : Dict (List String)) → get_or key [] (insert key l d) ≡ l
get_or-put key l d =
    ap (λ (o : Option (List String)). elim o [ none ↦ [] | some v ↦ v ]) (lookup-put key l d)

-- One pop of a queue that is not empty.
rpoplpush-moves :
    (key worker x : String) (xs : List String) (s : Store)
    → get_or key [] s.queues ≡ x ∷ xs
    → let (left, id) = split_last x xs in
      let s1 = (rpoplpush key worker s).0 in
      (get_or key [] s1.queues ≡ left)
      × (get_or worker [] s1.processing ≡ id ∷ get_or worker [] s.processing)
unfolding rpoplpush
rpoplpush-moves key worker x xs s e =
    rw (e, rpoplpush)
      (
        get_or-put key (split_last x xs).0 s.queues,
        get_or-put worker ((split_last x xs).1 ∷ get_or worker [] s.processing) s.processing,
      )

-- Whatever the number of ids in a queue, that many pops by a worker empty it and put all of them on
-- the worker's list: no id is lost, and none waits for more pops than there are ids in the queue.
pub pops_deliver :
    (key worker : String) (n : ℕ) (q : List String) (s : Store)
    → get_or key [] s.queues ≡ q
    → length q ≡ n
    → let s1 = pops n key worker s in
      (get_or key [] s1.queues ≡ [])
      × (get_or worker [] s1.processing ≡ q ++ get_or worker [] s.processing)
unfolding pops
pops_deliver key worker zero [] s e h = (e, refl)
pops_deliver key worker zero (x ∷ xs) s e h = absurd (omega (arith, h))
pops_deliver key worker (suc n) [] s e h = absurd (omega (arith, h))
pops_deliver key worker (suc n) (x ∷ xs) s e h =
    let (left, id) = split_last x xs in
    let (rest, moved) = rpoplpush-moves key worker x xs s e in
    let (empty, all) =
      pops_deliver key worker n left (rpoplpush key worker s).0 rest
        (split_last-length x xs ∙ omega (arith, h)) in
    (
      empty,
      all
          ∙ ap (λ l. left ++ l) moved
          ∙ sym (append_assoc left (id ∷ []) (get_or worker [] s.processing))
          ∙ ap (λ l. l ++ get_or worker [] s.processing) (split_last-append x xs),
    )
