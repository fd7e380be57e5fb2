-- ===== src/RateLimit.antt =====
-- The fixed-window counter of src/rate_limit.rs. The map is a list of entries of distinct keys, an
-- instant a number of nanoseconds, and a `usize` at most 2 ^ 64 - 1.
mod Budget
mod Examples
use agro.Base.{
  ℕ, ◌+◌, ◌-◌, ◌^◌, Bool, true, false, not, List, [], ◌∷◌, ◌++◌, Option, none, some, Text, same,
  select, delete, ltb, leb, if◌then◌else◌, head?, length,
}

abbrev pub sweep_threshold : ℕ
sweep_threshold = 4096

pub record Window : Type 0 where
  pub key : Text
  pub started : ℕ
  pub charged : ℕ

abbrev pub max_usize : ℕ
max_usize = 2 ^ 64 - 1

abbrev pub saturating_add : ℕ → ℕ → ℕ
saturating_add a b = if ltb max_usize (a + b) then max_usize else a + b

abbrev pub is_key : Text → Window → Bool
is_key key w = same w.key key

abbrev pub is_running : ℕ → ℕ → Window → Bool
is_running now window w = ltb (now - w.started) window

-- The entry of the key, inserted when it is missing and started over when its window has passed.
abbrev pub entry : Text → ℕ → ℕ → Option Window → Window
entry key now window none = record { key = key; started = now; charged = 0 }
entry key now window (some w) =
    if is_running now window w then w else record w { started = now; charged = 0 }

abbrev pub sweep : List Window → ℕ → ℕ → List Window
sweep windows now window =
    if ltb sweep_threshold (length windows) then select (is_running now window) windows else windows

unfoldable pub charge : List Window → Text → ℕ → ℕ → ℕ → ℕ → List Window × Bool
charge windows key units budget window now =
    let swept = sweep windows now window in
    let found = entry key now window (head? (select (is_key key) swept)) in
    let charged = saturating_add found.charged units in
    (delete (is_key key) swept ++ record found { charged = charged } ∷ [], leb charged budget)
