-- ===== src/Anticheat/Backfill.antt =====
-- What `backfill_once` of app/services/anticheat/worker.py puts on the queue.
use bancho_prism_1_0_0_prod.Base.{
  ℕ, zero, suc, ◌+◌, ◌*◌, ◌<◌, ◌≡◌, refl, sym, ◌∙◌, ap, arith, List, [], ◌∷◌, ◌++◌, map, true,
  append-nil, append_assoc, ltb, length, take, drop, length-take, length-append, Bool-cases, inl,
  inr,
}
use bancho_prism_1_0_0_prod.Utf8.{Text}
use bancho_prism_1_0_0_prod.Anticheat.Queue.{encode_entry}
use bancho_prism_1_0_0_prod.Anticheat.Worker.{
  PendingScore, Worker, unanalyzed, fetch_unanalyzed_scores, enqueue_all, publish_depth, last_id,
  after_page, backfill_loop, backfill_once,
}
use bancho_prism_1_0_0_prod.Anticheat.Pages.{take_add, take_nil, IsAscending, unanalyzed_next}

abbrev pub entries : List PendingScore → List Text
entries = map (λ p. encode_entry p.score_id p.mode)

-- The queue with the entries of some scores behind it.
abbrev pub with_entries : {F : Type 0} → List PendingScore → Worker F → Worker F
with_entries pending w = record w { queue = w.queue ++ entries pending }

entries-append : (xs ys : List PendingScore) → entries (xs ++ ys) ≡ entries xs ++ entries ys
entries-append [] ys = refl
entries-append (x ∷ xs) ys = ap (λ l. encode_entry x.score_id x.mode ∷ l) (entries-append xs ys)

drop_short : (n : ℕ) (xs : List PendingScore) → length xs < n → drop n xs ≡ []
drop_short zero xs h = absurd (omega arith)
drop_short (suc n) [] h = refl
drop_short (suc n) (x ∷ xs) h = drop_short n xs (omega arith)

nothing_left :
    (limit m : ℕ) (xs : List PendingScore)
    → ltb (length (take limit xs)) limit ≡ true
    → take m (drop limit xs) ≡ []
nothing_left limit m xs h =
    rw (drop_short limit xs (ground (arith, h, length-take limit xs))) (take_nil m)

module _ {F : Type 0} where
  enqueue_all-with_entries :
      (pending : List PendingScore) (w : Worker F) → enqueue_all pending w ≡ with_entries pending w
  enqueue_all-with_entries [] w = ap (λ q. record w { queue = q }) (sym (append-nil w.queue))
  enqueue_all-with_entries (p ∷ pending) w =
      enqueue_all-with_entries pending
        (record w { queue = w.queue ++ encode_entry p.score_id p.mode ∷ [] })
      ∙ ap (λ q. record w { queue = q })
          (append_assoc w.queue (encode_entry p.score_id p.mode ∷ []) (entries pending))

  -- The loop on a page that is known.
  loop_page :
      (k limit c e : ℕ) (w : Worker F) (page : List PendingScore)
      → fetch_unanalyzed_scores limit c w ≡ page
      → backfill_loop (suc k) limit c e w ≡ after_page limit c e page w (backfill_loop k limit)
  unfolding backfill_loop
  loop_page k limit c e w page h = ap (λ l. after_page limit c e l w (backfill_loop k limit)) h

  -- What the loop comes to when it has put some scores on the queue.
  abbrev Fills : (e : ℕ) (w : Worker F) → List PendingScore → ℕ × Worker F → Type 0
  Fills e w pending r = r ≡ (e + length pending, with_entries pending w)

  Fills-none : (e : ℕ) (w : Worker F) → Fills e w [] (e, w)
  Fills-none e w =
      ap (λ n. (n, w)) (omega arith)
      ∙ ap (λ q. (e + 0, record w { queue = q })) (sym (append-nil w.queue))

  Fills-more :
      (e : ℕ) (w : Worker F) (xs ys : List PendingScore) (r : ℕ × Worker F)
      → Fills (e + length xs) (with_entries xs w) ys r
      → Fills e w (xs ++ ys) r
  Fills-more e w xs ys r h =
      h
      ∙ ap (λ n. (n, with_entries ys (with_entries xs w)))
          (let sum : e + length xs + length ys ≡ e + length (xs ++ ys) =
              omega (arith, length-append xs ys) in
            sum)
      ∙ ap (λ q. (e + length (xs ++ ys), record w { queue = q }))
          (append_assoc w.queue (entries xs) (entries ys)
            ∙ ap (λ l. w.queue ++ l) (sym (entries-append xs ys)))

  after_page-Fills :
      (limit c e : ℕ) (w : Worker F) (page rest : List PendingScore)
      (next : (cursor enqueued : ℕ) → Worker F → ℕ × Worker F)
      → (ltb (length page) limit ≡ true → rest ≡ [])
      → (page ≡ [] → rest ≡ [])
      → Fills
          (e + length page)
          (with_entries page w)
          rest
          (next (last_id c page) (e + length page) (with_entries page w))
      → Fills e w (page ++ rest) (after_page limit c e page w next)
  after_page-Fills limit c e w [] rest next short last h = rw (last refl) (Fills-none e w)
  after_page-Fills limit c e w (p ∷ ps) rest next short last h =
      let page = p ∷ ps in
      elim (Bool-cases (ltb (length page) limit)) [
        | inl small ↦
            rw (small, short small, append-nil ps)
              (ap (λ v. (e + length page, v)) (enqueue_all-with_entries page w))
        | inr large ↦ rw large (
            ap (next (last_id c page) (e + length page)) (enqueue_all-with_entries page w)
            ∙ Fills-more e w page rest _ h)
      ]

  -- The loop puts the first of the scores above its cursor on the queue, in the order of their ids.
  loop-Fills :
      (k limit c e b : ℕ) (w : Worker F)
      → 0 < limit
      → IsAscending b w.scores
      → Fills e w (take (k * limit) (unanalyzed w.rows c w.scores)) (backfill_loop k limit c e w)
  loop-Fills zero limit c e b w some_limit rising =
      let nothing : 0 * limit ≡ 0 = omega arith in
      rw nothing (unfold backfill_loop in Fills-none e w)
  loop-Fills (suc k) limit c e b w some_limit rising =
      let all = unanalyzed w.rows c w.scores in
      let page = take limit all in
      let more : suc k * limit ≡ limit + k * limit = omega arith in
      rw
        (
          more,
          take_add limit (k * limit) all,
          loop_page k limit c e w page (unfold fetch_unanalyzed_scores in refl),
        )
        (after_page-Fills limit c e w page (take (k * limit) (drop limit all))
          (backfill_loop k limit) (λ small. nothing_left limit (k * limit) all small)
          (λ none. nothing_left limit (k * limit) all (rw none (ground arith)))
          (rw (unanalyzed_next w.rows b c limit w.scores rising) at (
            loop-Fills k limit (last_id c page) (e + length page) b (with_entries page w) some_limit
              rising)))

  -- With scores in the order of their ids, all above 0, and a page size above 0, a pass enqueues the
  -- first `max_batches * batch_size` of the scores that have no row, each once and in that order,
  -- behind what the queue had; it returns how many, reports the depth of the queue then, and
  -- changes nothing else.
  pub backfill_once_enqueues :
      (max_batches batch_size : ℕ) (w : Worker F)
      → 0 < batch_size
      → IsAscending 0 w.scores
      → let due = take (max_batches * batch_size) (unanalyzed w.rows 0 w.scores) in
        backfill_once max_batches batch_size w ≡ (length due, publish_depth (with_entries due w))
  unfolding backfill_once
  backfill_once_enqueues k limit w some_limit rising =
      rw (loop-Fills k limit 0 0 0 w some_limit rising) (
        ap
          (λ n.
            (n, publish_depth (with_entries (take (k * limit) (unanalyzed w.rows 0 w.scores)) w)))
          (omega arith))
