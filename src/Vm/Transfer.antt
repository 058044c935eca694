-- ===== src/Vm/Transfer.antt =====
-- copyout, copyin and copyinstr of kernel/vm.c.
use fyp_os.Prelude.{
  ℕ, zero, suc, ◌+◌, ◌-◌, min, Bool, true, false, Bytes, write, ◌==◌, ltb, if◌then◌else◌,
}
use fyp_os.Kstring.{memmove}
use fyp_os.Kalloc.{pgsize, Kmem}
use fyp_os.Vm.{pgrounddown, walkaddr}

-- The loops of `copyout` and `copyin` on fuel for the bytes: whether they return 0.
unfoldable pub copyout_loop : ℕ → ℕ → ℕ → ℕ → ℕ → Kmem → Bool × Kmem
copyout_loop zero pt dstva src len s = (true, s)
copyout_loop (suc k) pt dstva src len s =
    let va0 = pgrounddown dstva in
    let pa0 = walkaddr pt va0 s in
    let n = min (pgsize - (dstva - va0)) len in
    let s1 = record s { mem = memmove s.mem (pa0 + (dstva - va0)) src n } in
    let rest = copyout_loop k pt (va0 + pgsize) (src + n) (len - n) s1 in
    if ltb 0 len then (if pa0 == 0 then (false, s) else rest) else (true, s)

unfoldable pub copyout : ℕ → ℕ → ℕ → ℕ → Kmem → Bool × Kmem
copyout pt dstva src len s = copyout_loop len pt dstva src len s

unfoldable pub copyin_loop : ℕ → ℕ → ℕ → ℕ → ℕ → Kmem → Bool × Kmem
copyin_loop zero pt dst srcva len s = (true, s)
copyin_loop (suc k) pt dst srcva len s =
    let va0 = pgrounddown srcva in
    let pa0 = walkaddr pt va0 s in
    let n = min (pgsize - (srcva - va0)) len in
    let s1 = record s { mem = memmove s.mem dst (pa0 + (srcva - va0)) n } in
    let rest = copyin_loop k pt (dst + n) (va0 + pgsize) (len - n) s1 in
    if ltb 0 len then (if pa0 == 0 then (false, s) else rest) else (true, s)

unfoldable pub copyin : ℕ → ℕ → ℕ → ℕ → Kmem → Bool × Kmem
copyin pt dst srcva len s = copyin_loop len pt dst srcva len s

-- The inner loop of `copyinstr`: whether the NUL was met, and the memory.
unfoldable pub copy_string : ℕ → ℕ → ℕ → Bytes → Bool × Bytes
copy_string zero dst p m = (false, m)
copy_string (suc n) dst p m =
    let rest = copy_string n (dst + 1) (p + 1) (write m dst (m p)) in
    if m p == 0 then (true, write m dst 0) else rest

unfoldable pub copyinstr_loop : ℕ → ℕ → ℕ → ℕ → ℕ → Kmem → Bool × Kmem
copyinstr_loop zero pt dst srcva max s = (false, s)
copyinstr_loop (suc k) pt dst srcva max s =
    let va0 = pgrounddown srcva in
    let pa0 = walkaddr pt va0 s in
    let n = min (pgsize - (srcva - va0)) max in
    let (got_null, m) = copy_string n dst (pa0 + (srcva - va0)) s.mem in
    let rest = copyinstr_loop k pt (dst + n) (va0 + pgsize) (max - n) (record s { mem = m }) in
    if ltb 0 max
    then (if pa0 == 0 then (false, s) else if got_null then (true, record s { mem = m }) else rest)
    else (false, s)

unfoldable pub copyinstr : ℕ → ℕ → ℕ → ℕ → Kmem → Bool × Kmem
copyinstr pt dst srcva max s = copyinstr_loop max pt dst srcva max s
