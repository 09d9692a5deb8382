-- ===== src/Inode/Tests.antt =====
-- Runs of the operations on the content of an inode.
use osass.Base.{◌≡◌, refl, false, arith, ok}
use osass.Image.{Image}
use osass.Image.Sample.{sample}
use osass.Inode.{Inode, bmap, load_inode, iupdate, itrunc, readi, writei}
use osass.Inode.Sample.{sample_inode, sample-HasBlocks}
use osass.Inode.Mapping.{MapEnds, bmap-MapEnds}
use osass.Inode.Dinode.{LoadEnds, load_inode-iupdate}
use osass.Inode.Size.{WriteiEnds, writei-WriteiEnds}
use osass.Inode.Read.{ReadiEnds, readi-ReadiEnds}
use osass.Inode.Truncated.{Truncated, itrunc-Truncated}

abbrev file : Inode
file = sample_inode 2

-- A block behind the indirect one.
bmap-MapEnds_example : MapEnds 21 file sample (bmap 20 file sample)
bmap-MapEnds_example = bmap-MapEnds 20 file sample (sample-HasBlocks 2) (omega arith)

load_inode-iupdate_example :
    LoadEnds file (load_inode (record file { valid = false }) (iupdate file sample))
load_inode-iupdate_example =
    load_inode-iupdate file (record file { valid = false }) sample
      (record {
        type_short = omega arith;
        major_short = omega arith;
        minor_short = omega arith;
        nlink_short = omega arith;
        size_uint = omega arith;
        addrs_uint = λ k l. ground arith;
      })
      refl refl

-- 600 bytes over the end of the file.
writei-WriteiEnds_example :
    WriteiEnds 0 30 600 (λ x. 1) file sample (writei (λ d. false) 0 30 600 (λ x. 1) file sample)
writei-WriteiEnds_example =
    writei-WriteiEnds (λ d. false) 0 30 600 (λ x. 1) file sample (sample-HasBlocks 2)
      (omega arith, omega arith) (omega arith) (omega arith) (omega arith) (λ i. omega arith)

readi-ReadiEnds_example :
    ReadiEnds 0 10 40 (λ x. 1) file sample (readi (λ d. false) 0 10 40 (λ x. 1) file sample)
readi-ReadiEnds_example =
    readi-ReadiEnds (λ d. false) 0 10 40 (λ x. 1) file sample (sample-HasBlocks 2) (omega arith)
      (omega arith) (omega arith) (omega arith)

itrunc-Truncated_example :
    (ip : Inode) × (j : Image) × (itrunc file sample ≡ ok (ip, j)) × Truncated file sample ip j
itrunc-Truncated_example =
    itrunc-Truncated file sample (sample-HasBlocks 2) (omega arith, omega arith)
