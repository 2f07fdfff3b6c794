-- ===== src/MList/Pagetable/Words.antt =====
-- The words of the M-List of page tables: an address, a pid and a level in one number.
use ev.Prelude.{ℕ, ◌+◌, ◌*◌, ◌<◌, ◌≡◌, arith}
use ev.Prelude.Or.{mod_four, mod_page}
use Prim.Native.Nat.{bit_or}
use ev.MList.Pagetable.{pack, node_pa, node_pid, node_level}

-- What is packed for a page, a pid below 1024 and a level below 4 is read back.
pub node-pack :
    (page pid level : ℕ)
    → pid < 1024
    → level < 4
    → let e = pack pid (page * 4096) level in
      (node_pa e ≡ page * 4096) × (node_pid e ≡ pid) × (node_level e ≡ level)
unfolding pack node_pa node_pid node_level
node-pack page pid level small low =
    let first : bit_or (page * 4096) (pid * 4) ≡ page * 4096 + pid * 4 =
      mod_page page (pid * 4) (omega arith) in
    let e : page * 4096 + pid * 4 ≡ (page * 1024 + pid) * 4 = omega arith in
    let second : bit_or (page * 4096 + pid * 4) level ≡ page * 4096 + pid * 4 + level =
      rw e (mod_four (page * 1024 + pid) level low) in
    rw (first, second) (omega arith, omega arith, omega arith)
