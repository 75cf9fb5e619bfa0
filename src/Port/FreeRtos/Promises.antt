-- ===== src/Port/FreeRtos/Promises.antt =====
-- The memory pool of ports/freertos/tm_port.c against the laws of include/tm_api.h.
use thread_metric_benchmark.Base.{◌<◌, arith, length}
use thread_metric_benchmark.Api.Laws.{PoolLaws}
use thread_metric_benchmark.Port.FreeRtos.Kernel.{Kernel, Target}
use thread_metric_benchmark.Port.FreeRtos.Pool.FreeList
use thread_metric_benchmark.Port.FreeRtos.Services.{freertos_api}

pub blocks_from-pos : 0 < length (FreeList.blocks_from 16 0)
blocks_from-pos = omega (arith, FreeList.length-blocks_from 16 0)

module _ {Entry K : Type 0} (kernel : Kernel K) (target : Target) where
  -- The pool keeps its promises on every kernel.
  unfoldable pub pool_laws : PoolLaws (freertos_api {Entry = Entry} kernel target)
  unfolding freertos_api
  pool_laws = record {
    Free = FreeList.Free;
    Absent = λ s. Unit;
    create_lem = λ s _.
        let (s', e, h) = FreeList.create_Free s in
        (s', FreeList.blocks_from 16 0, e, blocks_from-pos, h);
    allocate_lem = FreeList.allocate_Free;
    allocate_empty = λ s h. (s, FreeList.allocate_empty s h, h);
    deallocate_lem = FreeList.deallocate-allocate;
  }
