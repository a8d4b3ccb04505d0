-- ===== src/Proc.antt =====
-- Assignment_08/proc.c: a process that walks through its reference string, and the memory manager
-- (mmu.c) that answers it. One process is followed; requests of others are not interleaved.
pub mod Walk
pub mod Finish
use os_lab_spr.Base.{
  ℕ, zero, suc, ◌+◌, Bool, true, false, Option, none, some, List, [], ◌∷◌, ◌++◌, if◌then◌else◌, ℤ,
  pos, negsuc, eqb_ℤ, ◌>>=◌,
}
use os_lab_spr.Mmu.{Mmu, serve_request, to_char, page_fault, invalid_page_number, process_done}

-- The answer that the process reads: the last one sent.
pub last_reply : List (ℕ × ℤ) → Option ℤ
last_reply [] = none
last_reply ((id, x) ∷ []) = some x
last_reply (r ∷ (q ∷ rs)) = last_reply (q ∷ rs)

-- The page request and the answer to it.
unfoldable pub request : ℕ → Mmu → ℕ → ℤ → Option (Mmu × ℤ)
unfolding last_reply
request g s id page = do
  t ← serve_request g s (some (id, to_char page))
  frame ← last_reply t.replies
  some (t, frame)

-- The message behind the loop.
unfoldable pub finish : ℕ → Mmu → ℕ → Option Mmu
finish g s id = serve_request g s (some (id, to_char process_done))

-- The loop of `main` over the pages left, and the message behind it; `g` is the fuel of the memory
-- manager. `none`: a fuel ran out.
pub walk : ℕ → ℕ → Mmu → ℕ → List ℤ → Option Mmu
walk zero g s id pages = none
walk (suc fuel) g s id [] = finish g s id
walk (suc fuel) g s id (page ∷ pages) = do
  (t, frame) ← request g s id page
  let again = walk fuel g t id (page ∷ pages)
  let onward = walk fuel g t id pages
  if eqb_ℤ frame page_fault
      then again
      else if eqb_ℤ frame invalid_page_number
      then finish g t id
      else onward
