-- ===== src/Memory/Host.antt =====
-- nemu/include/memory/host.h: typed accesses to a host object of a known size.
use bailuwan.Base.{ℕ, zero, suc, ◌+◌, ◌*◌, ◌/◌, ◌%◌, Bool, ◌==◌, leb, if◌then◌else◌}
use bailuwan.Base.Run.{Run, ok, stop, assert_fail, undefined}

-- The bytes of an object, by offset. The host is little-endian.
abbrev pub Memory : Type 0
Memory = ℕ → ℕ

unfoldable pub load : Memory → ℕ → ℕ → ℕ
load m p zero = 0
load m p (suc n) = m p + 256 * load m (p + 1) n

unfoldable pub store : Memory → ℕ → ℕ → ℕ → Memory
store m p zero v i = m i
store m p (suc n) v i = if i == p then v % 256 else store m (p + 1) n (v / 256) i

-- `*(uintN_t *)addr` with `addr` at offset `p` of an object of `size` bytes.
unfoldable pub deref : ℕ → Memory → ℕ → ℕ → Run ℕ
deref size m p n = if leb (p + n) size then ok (load m p n) else stop undefined

unfoldable pub assign : ℕ → Memory → ℕ → ℕ → ℕ → Run Memory
assign size m p n v = if leb (p + n) size then ok (store m p n v) else stop undefined

-- `rt_check` is CONFIG_RT_CHECK.
unfoldable pub host_read : Bool → ℕ → Memory → ℕ → ℕ → Run ℕ
unfolding deref
host_read rt_check size m p len =
    if len == 1
    then deref size m p 1
    else if len == 2
    then deref size m p 2
    else if len == 4
    then deref size m p 4
    else if rt_check
    then stop assert_fail
    else ok 0

unfoldable pub host_write : Bool → ℕ → Memory → ℕ → ℕ → ℕ → Run Memory
unfolding assign
host_write rt_check size m p len v =
    if len == 1
    then assign size m p 1 v
    else if len == 2
    then assign size m p 2 v
    else if len == 4
    then assign size m p 4 v
    else if rt_check
    then stop assert_fail
    else ok m
