-- ===== src/Poller/Settings/Tests.antt =====
-- Variables of the poller, and the instances of the theorems on its settings.
use aws_demo.Base.{◌≡◌, refl, if◌then◌else◌}
use aws_demo.Text.{codes}
use aws_demo.Text.Decimal.{read_digits}
use aws_demo.Poller.Settings.{pos, negsuc, in_int32, parse_int32, int32_from_env, printed}
use aws_demo.Poller.Settings.Numbers.{int32_from_env-printed}

too_large : int32_from_env (codes "2147483648") (pos 20) ≡ pos 20
unfolding int32_from_env parse_int32 read_digits
too_large = refl

least : int32_from_env (codes "-2147483648") (pos 20) ≡ negsuc 2147483647
unfolding int32_from_env parse_int32 read_digits
least = refl

int32_from_env-printed_example :
    int32_from_env (printed (pos 45)) (pos 20) ≡ (if in_int32 (pos 45) then pos 45 else pos 20)
int32_from_env-printed_example = int32_from_env-printed (pos 45) (pos 20)
