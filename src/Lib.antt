-- ===== src/Lib.antt =====
-- ProgPoW-miner: a miner for the proof of work ProgPoW, which generates a program for the devices every
-- few blocks, runs it on OpenCL and CUDA devices and exchanges jobs and solutions with a pool.
--
-- How the parts work together. The pool manager owns the client of a pool and the farm. The client reads
-- replies of the pool and calls the handlers of the manager: on a connection the manager starts the farm,
-- on a lost connection it stops the farm and connects again, to another pool after some tries, and a job
-- it passes to the farm. The farm gives a job to its miners, each of which searches its own range of
-- nonces with the generated kernel, and passes a solution back to the manager and the client.
--
-- Files and code:
--   ProgPow   libprogpow/ProgPow.{h,cpp}: Rng has FNV1a and KISS99, Shuffle the shuffled register sequences,
--             Kernel the drawn instructions of a block number, Header and Emit the text of `getKern`.
--   DevCore   libdevcore/CommonData.{h,cpp}: Endian has toBigEndian, fromBigEndian, toCompactBigEndian and
--             bytesRequired, Hex has toHex and fromHex; Worker is Worker.{h,cpp}, its thread access by
--             access, Worker/Calls the uses of a worker as a step relation.
--   Rlp       libdevcore/RLP.{h,cpp} and vector_ref.h: Format is the format by itself, Stream is RLPStream,
--             Reader is RLP, Lists its items() and operator[], Values its toInt and toHash.
--   Mining    libethcore/EthashAux.h, Miner.h and Farm.h: Work has work packages, solutions and miners, Farm
--             the farm with its timer and its service thread, Farm/Steps its life as a step relation;
--             Epochs is toEpoch of EthashAux.cpp, BlockHeader is libethcore/BlockHeader.{h,cpp}. Devices
--             has the loops of the miners: Opencl is workLoop of libethash-cl/CLMiner.cpp, Cuda is
--             workLoop and search of libethash-cuda/CUDAMiner.cpp.
--   Pool      libpoolprotocols: Client has the connection and the client as the manager sees it
--             (PoolClient.h), Manager is PoolManager.{h,cpp}, Stratum is stratum/EthStratumClient.{h,cpp}:
--             State, Session and Replies have its functions, Steps its life as a step relation; Getwork
--             is getwork/EthGetworkClient.{h,cpp}, Simulation testing/SimulateClient.{h,cpp}.
--             Addresses is PoolURI.{h,cpp}.
--   Cli       ethminer/MinerAux.h and main.cpp: Endpoints and Options have interpretOption, Main the loop
--             over the arguments, Execution has execute and doMiner, Benchmark the numbers of doBenchmark.
--   Common    the tests, lists, texts and results that all parts share.
--   A file Runs has the theorems at concrete inputs, and tests.
--
-- How code becomes definitions. A function of the code is a definition with its name in snake_case. An
-- object is a record; a method takes it and returns the changed one. An exception, undefined behaviour
-- that a theorem is about and a call that never returns are the errors of a `Result`. What is asked of
-- the outside (sockets, the client behind its virtual functions) is recorded as a list of actions, and
-- what the outside brings is an argument. Unsigned numbers are natural numbers with the wrap-around of
-- their width written out; a byte string is a list of numbers. Text is a native string, or the list of
-- its bytes where the code looks at single characters.
--
-- Bounds and fuel. The generator runs over the constants of ProgPow.h. The loops of `bytes_required` and
-- `write_back` get the number itself as fuel, since each round divides it by 256. The loop of `items` gets
-- the length of the payload, and `none` is its answer if that were too little. `to_string` writes up to 20
-- digits, enough for 64 bits. The loop over the arguments gets one round more than there are arguments, and
-- that over chosen devices as many as there are arguments.
--
-- Parameters. The clients take `EthashAux::toEpoch`, which Mining/Epochs models with its cache, as the
-- parameter `to_epoch`; there the hash function `sha3` is a parameter. So
-- is `EthashAux::eval` for the simulation and the miners. The library that parses addresses is `parse`,
-- `decode` and `trim`. A kernel on a device is a parameter too: a
-- function `run` that gives the hits of a header, a target and a start nonce. Replies
-- stand as the parts that the JSON library gives on being asked, a difficulty as the boundary that
-- `diffToTarget` makes of it in floating point.
--
-- Not modelled: the code for the devices and what chooses them and sets them up (the rest of libethash-cl
-- and libethash-cuda), ethash and keccak (libethash, the light caches of libethcore/EthashAux.cpp), the
-- waiting of the benchmark and the printing loop of ethminer, the remote interface (libapicore), hardware monitors
-- (libhwmon), logging, mutexes and the pauses of threads: calls that the code guards by one mutex are
-- single steps.
pub mod Common
pub mod DevCore
pub mod ProgPow
pub mod Rlp
pub mod Mining
pub mod Pool
pub mod Cli
