-- ===== src/Utils/Token/Fuel.antt =====
-- The positions in the loops of `containsToken` (src/networking/Utils.h).
use pulse_net.Base.{ℕ, ◌≤◌, Bool, arith}
use pulse_net.Base.Bytes.{Bytes}
use pulse_net.Utils.Token.{skip_while}

pub skip_while_ge : (p : ℕ → Bool) (value : Bytes) (i : ℕ) → i ≤ skip_while p value i
unfolding skip_while
skip_while_ge p value i = omega arith
