-- ===== src/Buffer/Pages.antt =====
-- backend/leanstore/storage/buffer-manager/Partition.hpp: the page ids of a partition. The mutex
-- makes each operation one step.
use tree.Prelude.{
  ℕ, ◌+◌, ◌*◌, ◌/◌, ◌≡◌, List, [], ◌∷◌, leb, Run, ok, check, ◌>>◌, arith, refl, length,
}

-- `freed_pids` with its last element first. `ssd_gib` is `FLAGS_ssd_gib`.
pub record Pages : Type 0 where
  pub pid_distance : ℕ
  pub freed_pids : List ℕ
  pub next_pid : ℕ
  pub ssd_gib : ℕ

abbrev pub page_size : ℕ
page_size = 16384

unfoldable pub next_page_id : Pages → Run (ℕ × Pages)
next_page_id p = elim p.freed_pids [
  | pid ∷ rest ↦ ok (pid, record p { freed_pids = rest })
  | [] ↦ do
    check (leb (p.next_pid * page_size / 1024 / 1024 / 1024) p.ssd_gib)
    ok (p.next_pid, record p { next_pid = p.next_pid + p.pid_distance })
]

unfoldable pub free_page : Pages → ℕ → Pages
free_page p pid = record p { freed_pids = pid ∷ p.freed_pids }

unfoldable pub allocated_pages : Pages → ℕ
allocated_pages p = p.next_pid / p.pid_distance

unfoldable pub freed_pages : Pages → ℕ
freed_pages p = length p.freed_pids

-- A freed page is the next one that is handed out, and the partition is then as it was; the count
-- of freed pages goes up by one in between.
next_page_id-free_page :
    (p : Pages) (pid : ℕ)
    → (next_page_id (free_page p pid) ≡ ok (pid, p))
      × (freed_pages (free_page p pid) ≡ freed_pages p + 1)
unfolding next_page_id free_page freed_pages
next_page_id-free_page p pid = (refl, omega arith)
