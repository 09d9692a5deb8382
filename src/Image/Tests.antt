-- ===== src/Image/Tests.antt =====
-- Runs of the block layer.
use osass.Image.{balloc}
use osass.Image.Alloc.{BallocEnds, balloc-Took}
use osass.Image.Sample.{sample, sample-IsImage}

balloc-Took_example : BallocEnds sample (balloc sample)
balloc-Took_example = balloc-Took sample sample-IsImage
