-- ===== src/Virtio/Tests.antt =====
-- alloc3_desc with two free descriptors.
use os_cea.Base.{ltb}
use os_cea.Virtio.{Descs, no_desc, alloc3_desc}
use os_cea.Virtio.Three.{Three, alloc3_desc-Three}

abbrev two_free : Descs
two_free = record { is_free = λ i. ltb i 2; desc = λ i. no_desc }

alloc3_desc-Three_example : Three two_free (alloc3_desc two_free)
alloc3_desc-Three_example = alloc3_desc-Three two_free
