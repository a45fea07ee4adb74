-- ===== src/UserMemory/Tests.antt =====
-- The theorems about user memory, on the machine of UserMemory/Sample.
use project.Prelude.{arith}
use project.UserMemory.Sample.{sample, sample-IsValid}
use project.UserMemory.{user_to_system}
use project.UserMemory.Byte.{HaltsOr}
use project.UserMemory.Bounds.{IsCopy, user_to_system-IsTerminated}

user_to_system-IsTerminated_example : HaltsOr (IsCopy 4) (user_to_system sample 0 4)
user_to_system-IsTerminated_example =
    user_to_system-IsTerminated sample 0 4 sample-IsValid (omega arith)
