-- ===== src/Storage/Tests.antt =====
-- Queues in a Redis in memory, and pages of a list.
use ttn.Base.{
  ℕ, ◌+◌, ◌-◌, ◌^◌, ◌≤◌, ◌<◌, ◌≡◌, ◌↔◌, List, [], ◌∷◌, map, ok, panics, done, codes, arith,
}
use ttn.Base.Int.{pos, negsuc}
use ttn.Storage.Redis.{Text}
use ttn.Storage.Redis.Example.{memory, memory-IsRedis}
use ttn.Storage.Queue.Refinement.{QueueOp, replay_all, perform_all, queue_refines}
use ttn.Storage.Options.{ListOptions, select_page, page, select_page_panics_iff, select_page_lem}

abbrev ops : List QueueOp
ops =
    QueueOp.push_front (codes "a") (codes "x") (codes "y" ∷ [])
    ∷ QueueOp.push_end (codes "q:a") (codes "z") []
    ∷ QueueOp.pop (codes "a")
    ∷ QueueOp.cut (codes "a") (pos 0)
    ∷ QueueOp.some_end (codes "a") (negsuc 0)
    ∷ []

queue_refines_example :
    ((perform_all memory (codes "q:") ops (λ k. [])).0
      ≡ map ok (replay_all (codes "q:") ops (λ k. [])).0)
    × ((perform_all memory (codes "q:") ops (λ k. [])).1
        ≡ (replay_all (codes "q:") ops (λ k. [])).1)
queue_refines_example = queue_refines memory memory-IsRedis (codes "q:") ops (λ k. [])

abbrev keys : List Text
keys = codes "a" ∷ codes "b" ∷ codes "c" ∷ []

abbrev options : ℕ → ℕ → ListOptions
options offset limit = record { limit = limit; offset = offset; total = 0; selected = 0 }

select_page_panics_iff_example :
    ((select_page keys (options 1 (2 ^ 64 - 1))).0 ≡ panics)
    ↔ ((1 < 3) × (2 ^ 64 ≤ 1 + (2 ^ 64 - 1)))
select_page_panics_iff_example =
    select_page_panics_iff keys (options 1 (2 ^ 64 - 1)) (omega arith) (omega arith) (omega arith)

select_page_lem_example :
    ((select_page keys (options 1 5)).0 ≡ done (page 1 5 keys))
    × ((select_page keys (options 1 5)).1.total ≡ 3)
select_page_lem_example = select_page_lem keys (options 1 5) (omega arith) (omega arith)
