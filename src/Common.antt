-- ===== src/Common.antt =====
-- The names that every other module shares: those of the libraries, passed on, and the helpers of
-- the modules below (tests, lists, bytes and their bits, mutexes, well-foundedness). It models no
-- code of the repository by itself.
mod Tests
mod Lists
mod Bits
mod Mutex
mod Throws
mod Words
mod Maps
mod Texts
mod Integers
mod Floats
mod Last
mod Pointers
pub use Tests.*
pub use Lists.*
pub use Bits.*
pub use Mutex.*
pub use Throws.*
pub use Words.*
unfoldable pub use Words.{read_u32, write_u32}
pub use Maps.*
pub use Texts.*
pub use Integers.*
pub use Floats.*
pub use Last.*
pub use Pointers.*
unfoldable pub use Last.{last}
unfoldable pub use Maps.{bytes_eq, find, assign, erase, erase_all}
pub use Prim.Native.Nat.{
  ℕ, zero, suc, ◌+◌, ◌-◌, ◌*◌, ◌/◌, ◌%◌, ◌^◌, ◌≤◌, ◌<◌, min, bit_xor, bit_and, bit_or,
}
pub use mathlib.Core.Path.{◌≡◌, refl, sym, ap, ap₂, subst, fun_ext, ◌∙◌}
pub use mathlib.Core.Logic.{◌≢◌, ◌↔◌, ◌⊎◌, inl, inr}
pub use mathlib.Core.Bool.{Bool, true, false, not, ◌&&◌, ◌||◌}
pub use mathlib.Core.Option.{Option, none, some}
pub use mathlib.Core.List.{List, [], ◌∷◌, ◌++◌, map, append-nil, append_assoc}
pub use native.Mathlib.Omega.{arith}
