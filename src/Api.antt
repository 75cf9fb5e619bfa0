-- ===== src/Api.antt =====
-- include/tm_api.h: what a test sees of a porting layer, as an interface, and the initialization
-- functions of the tests, which check every call by TM_CHECK.
pub mod Laws
pub mod Check
pub mod Start
use thread_metric_benchmark.Base.{ℕ, Option, ℤ}

-- TM_SUCCESS and TM_ERROR.
pub data Status : Type 0 where
  tm_success : Status  -- 0
  tm_error : Status  -- 1

-- A message: `unsigned long [4]`.
pub record Message : Type 0 where
  pub word_0 : ℕ
  pub word_1 : ℕ
  pub word_2 : ℕ
  pub word_3 : ℕ

-- The services, over the state `S` of porting layer and kernel. `Entry` names the entry functions
-- of the program. A service that writes through a pointer returns what it writes, if it does.
pub record Api (Entry S : Type 0) : Type 0 where
  pub thread_create : ℤ → ℤ → Entry → S → Status × S
  pub thread_resume : ℤ → S → Status × S
  pub thread_suspend : ℤ → S → Status × S
  pub thread_relinquish : S → S
  pub queue_create : ℤ → S → Status × S
  pub queue_send : ℤ → Message → S → Status × S
  pub queue_receive : ℤ → S → Status × Option Message × S
  pub semaphore_create : ℤ → S → Status × S
  pub semaphore_get : ℤ → S → Status × S
  pub semaphore_put : ℤ → S → Status × S
  pub memory_pool_create : ℤ → S → Status × S
  pub memory_pool_allocate : ℤ → S → Status × Option ℕ × S
  pub memory_pool_deallocate : ℤ → ℕ → S → Status × S
