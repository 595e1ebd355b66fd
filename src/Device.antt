-- ===== src/Device.antt =====
-- The device table of kernel/device.c. A pointer to a device is its place in the store of devices,
-- counted from 1, and 0 is null; a name is the memory from its pointer on. The loops over names are
-- those of kernel/ramfs.c, with the same bound of 16. What the drivers' functions answer is a parameter.
use aeos.Ramfs.{same_name, store_name}
use aeos.Base.{
  Bool, Option, replicate, ℕ, List, if◌then◌else◌, ◌+◌, get_or, set, false, find_index, ℤ, take,
  ltb, ◌-◌, ◌==◌, ◌%◌, leb, negsuc, ◌++◌, ◌&&◌, ◌||◌, pos, ◌∷◌, not, [], some, none,
}
pub mod Find
pub mod Valid
mod Tests

abbrev pub dev_max : ℕ
dev_max = 16

-- Which of the function pointers of a device are set
pub record Ops : Type 0 where
  pub opens : Bool
  pub reads : Bool
  pub writes : Bool
  pub ioctls : Bool
  pub closes : Bool

-- `device_t`
pub record Device : Type 0 where
  pub name : List ℕ
  pub kind : ℕ
  pub id : ℕ
  pub open_count : ℕ
  pub flags : ℕ
  pub ops : Ops

-- A call of a driver's `open` or `close`
pub data Callback : Type 0 where
  opens_it : ℕ → Callback
  closes_it : ℕ → Callback

-- `dev_table` and `dev_count`, the devices themselves, and the calls made so far
pub record Devices : Type 0 where
  pub table : List ℕ
  pub count : ℕ
  pub store : List Device
  pub callbacks : List Callback

abbrev pub blank : Device
blank = record {
  name = replicate 16 0;
  kind = 0;
  id = 0;
  open_count = 0;
  flags = 0;
  ops = record { opens = false; reads = false; writes = false; ioctls = false; closes = false };
}

abbrev pub device_at : Devices → ℕ → Device
device_at d p = get_or d.store (p - 1) blank

abbrev pub with_device : Devices → ℕ → Device → Devices
with_device d p v = record d { store = set d.store (p - 1) v }

-- `device_init`
abbrev pub init : Devices → Devices
init d = record d { table = replicate 16 0; count = 0 }

-- `device_register`
unfoldable pub register : Devices → List ℕ → ℕ → ℕ → ℤ × Devices
register d name kind p = if leb dev_max d.count then (negsuc 0, d) else (
  pos 0,
  record (with_device d p (record (device_at d p) {
    name = store_name name 0 16;
    kind = kind;
    id = d.count;
    open_count = 0;
    flags = 0;
  })) { table = set d.table d.count p; count = (d.count + 1) % 256 },
)

-- One round of the loop of `device_open`
abbrev pub matches : List Device → List ℕ → ℕ → Bool
matches store name p = if p == 0 then false else same_name (get_or store (p - 1) blank).name name

abbrev pub opened : Devices → ℕ → Devices
opened d p =
    let v = device_at d p in
    record (with_device d p (record v { open_count = (v.open_count + 1) % 256 })) {
      callbacks = if v.ops.opens then d.callbacks ++ (opens_it p ∷ []) else d.callbacks;
    }

abbrev pub open_found : Devices → Option ℕ → ℕ × Devices
open_found d none = (0, d)
open_found d (some i) = let p = get_or d.table i 0 in (p, opened d p)

-- `device_open`
unfoldable pub open_by : Devices → List ℕ → ℕ × Devices
open_by d name = open_found d (find_index (matches d.store name) (take d.count d.table))

-- `device_close`
abbrev pub less_open : Device → ℕ
less_open v = if ltb 0 v.open_count then v.open_count - 1 else 0

unfoldable pub close : Devices → ℕ → Devices
close d p =
    let v = device_at d p in
    if p == 0 then d else record (with_device d p (record v { open_count = less_open v })) {
      callbacks =
          if less_open v == 0 && v.ops.closes
          then d.callbacks ++ (closes_it p ∷ [])
          else d.callbacks;
    }

-- `device_get_by_id`
abbrev pub get_by_id : Devices → ℕ → ℕ
get_by_id d id = if leb dev_max id then 0 else get_or d.table id 0

-- What the functions of the drivers answer: the result of a read with the bytes it stores, and the results of a write and an ioctl
pub record Drivers : Type 0 where
  pub on_read : ℕ → ℕ → ℤ × List ℕ
  pub on_write : ℕ → List ℕ → ℤ
  pub on_ioctl : ℕ → ℕ → ℕ → ℤ

-- `device_read`, `device_write` and `device_ioctl`
unfoldable pub read : Drivers → Devices → ℕ → ℕ → ℤ × List ℕ
read drv d p len =
    if p == 0 || not (device_at d p).ops.reads then (negsuc 0, []) else drv.on_read p len

unfoldable pub write : Drivers → Devices → ℕ → List ℕ → ℤ
write drv d p bytes =
    if p == 0 || not (device_at d p).ops.writes then negsuc 0 else drv.on_write p bytes

unfoldable pub ioctl : Drivers → Devices → ℕ → ℕ → ℕ → ℤ
ioctl drv d p cmd arg =
    if p == 0 || not (device_at d p).ops.ioctls then negsuc 0 else drv.on_ioctl p cmd arg
