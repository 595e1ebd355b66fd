-- ===== src/Device/Tests.antt =====
-- Runs of the device table of kernel/device.c, and an instance of the theorem about it.
use aeos.Device.Find.{open_by-register}
use aeos.Ramfs.{store_name, first_diff}
use aeos.Base.{find_index, List, ℕ, [], ◌≡◌, ◌∷◌, refl, arith, suc, zero}
use aeos.Ramfs.Names.{IsPadded}
use aeos.Device.{init, open_by, Devices, register, blank, device_at}
use aeos.Device.Valid.{init-IsValid}

abbrev no_devices : Devices
no_devices = init (record { table = []; count = 0; store = blank ∷ []; callbacks = [] })

-- "uart0", with zeros behind it
abbrev uart0 : List ℕ
uart0 = 117 ∷ 97 ∷ 114 ∷ 116 ∷ 48 ∷ 0 ∷ []

uart0-IsPadded : IsPadded uart0
uart0-IsPadded zero e = absurd (ground (arith, e))
uart0-IsPadded (suc zero) e = absurd (ground (arith, e))
uart0-IsPadded (suc (suc zero)) e = absurd (ground (arith, e))
uart0-IsPadded (suc (suc (suc zero))) e = absurd (ground (arith, e))
uart0-IsPadded (suc (suc (suc (suc zero)))) e = absurd (ground (arith, e))
uart0-IsPadded (suc (suc (suc (suc (suc zero))))) e = refl
uart0-IsPadded (suc (suc (suc (suc (suc (suc j)))))) e = refl

-- The same text with another byte behind its end is not found.
not_found :
    (open_by (register no_devices uart0 0 1).1 (117 ∷ 97 ∷ 114 ∷ 116 ∷ 48 ∷ 0 ∷ 7 ∷ [])).0 ≡ 0
unfolding open_by register store_name find_index first_diff
not_found = refl

open_by-register_example :
    let d' = (register no_devices uart0 0 1).1 in
    ((open_by d' uart0).0 ≡ 1) × ((device_at (open_by d' uart0).1 1).open_count ≡ 1)
unfolding find_index
open_by-register_example =
    open_by-register no_devices uart0 0 1
      (init-IsValid (record { table = []; count = 0; store = blank ∷ []; callbacks = [] }))
      (omega arith, omega arith) (λ i lt. absurd (omega (arith, lt))) uart0-IsPadded (omega arith)
      refl
