-- ===== src/Lib.antt =====
-- libsolgem simulates the readout of the GEM trackers of an SBS experiment: it turns Monte
-- Carlo hits into digitized strips, writes them as events, and decodes these events for the
-- analyzer.
--
-- How the parts interact. The database manager (src/TSBSDBManager.cxx) holds the numbers of
-- chambers, planes and modules and the geometry of each module. The digitization
-- (src/TSBSSimGEMDigitization.cxx) takes the hits of an event (src/TSBSGEMSimHitData.cxx),
-- which src/TSBSGeant4File.cxx packs from the entries of a g4sbs tree, draws the ions of each,
-- spreads their charge over the strips of the chamber's planes (src/TSBSGEMChamber.cxx,
-- src/TSBSGEMPlane.cxx), samples it (src/TSBSSimAuxi.cxx), adds the strip signals up in
-- digitized planes and writes a TSBSSimEvent (src/TSBSSimEvent.cxx). The input file
-- (src/TSBSSimFile.cxx) gives these events back one by one, and the decoder
-- (src/TSBSSimDecoder.cxx) puts the samples of each strip at its hardware address and keeps the
-- map from addresses to strips.
--
-- Files. Base holds the shared names, lists and integers; Double the operations of floating
-- point numbers, as a record that the users take as an instance. Box models TSBSBox and
-- GemPlane TSBSGEMPlane, over ROOT's matrices as an instance. Database models the state of
-- TSBSDBManager, Database/GemIndex the numbering of modules in LoadGeneralInfo, Database/Load
-- LoadDB, Database/Load/General LoadGeneralInfo, Database/Load/Geometry LoadGeoInfo,
-- Database/Access CheckIndex and the getters, Database/Keys OpenInput and FindKey,
-- Database/Optics the constructor, the terms of LoadOptics and GetOpticsCoeff,
-- Database/Optics/Stream LoadOptics on the text of a file. Readout models StripToROC,
-- StripToROCD, MakeROCKey and fStripMap; Decoder/Setup the constructor of the decoder,
-- Decoder/LoadStrips the loop of DoLoadEvent over the strips, Decoder/Clusters its loop over
-- clusters, Decoder/BackTrack the points and the back track, Decoder/Truth GetSBSMCHitInfo and
-- GetAllMCHits, Decoder/Profiles load_shower_profiles, Decoder/Shower Calc_Shower_Coordinates,
-- find_vertex_bin and Fit_3D_Track, Decoder/Kinematics and Decoder/Calorimeter the
-- calorimeter's part of DoLoadEvent, and Decoder/LoadEvent Clear and the whole of DoLoadEvent.
-- DigitizedPlane models TSBSGEMHit and TSBSDigitizedPlane, with one function per loop body and
-- loop of Cumulate. HitData models TSBSGEMSimHitData, SimAuxi the functions of TSBSSimAuxi,
-- Chamber TSBSGEMChamber and the list of chambers of TSBSSpec. Digitization models the state of
-- TSBSSimGEMDigitization and Initialize, Digitization/Setup ReadDatabase, Digitization/Ions
-- IonModel, Digitization/Noise GetPedNoise, Digitization/Spread and Digitization/Collect the
-- charge in bins and the strips with a signal of AvaModel, Digitization/Avalanche the rest of
-- it, Digitization/Additive Digitize, AdditiveDigitize and NoDigitize, Digitization/Tree
-- SetTreeHit, SetTreeStrips and FillTree, Digitization/Tree/Event SetTreeEvent,
-- Digitization/Output InitTree, WriteTree and CloseTree. Geant4File models the records and
-- GetGEMData of TSBSGeant4File, Geant4File/ReadEvent its ReadNextEvent, Geant4File/BbGems what
-- that does for the BigBite GEMs, Geant4File/SidisGems for the SIDIS GEMs and
-- Geant4File/TrackerGems for the forward tracker and the polarimeter. Geant4File/Grow has the
-- loops that grow a calorimeter cluster, Geant4File/Calorimeter GetGEpECalCluster and
-- GetHCalCluster, Geant4File/Calorimeter/BigBite GetBBECalCluster, and
-- Geant4File/Calorimeter/Event the calls of the three in ReadNextEvent, Geant4File/Opening Open
-- and Close. SimEvent has the event, SimFile the file as a state machine over what ROOT
-- answers, SimFile/Compare its assignment, Compare and Init. Examples has runs on concrete
-- inputs. A child module that is named for a theorem's subject has the proofs.
--
-- Correspondence. Fields have the names of the members without the leading f; a function has
-- the name of the method. A natural number stands for a count or an index that the source never
-- makes negative, an integer for the others. Sums of samples and addresses are not wrapped at
-- 2^32: they are far below it for every detector, and the numbers of hits and strips below
-- 2^15, where a Short_t ends, except in ADCConvert, whose conversion to a Short_t keeps 16
-- bits. Where the source goes past the end of an array it has no meaning, and the model gives a
-- plane with more than 6 samples more rows of fStripClusterADC, and a plane that is not there
-- no modules; the results about these say so in their conditions. Every loop is structural
-- recursion on the number of rounds left or on the list, so no fuel is needed, but for three:
-- the reading loop of SimFile/Reading takes fuel, and one call more than there are entries is
-- enough; the loop of LoadDB over a list of numbers has the length of the value and two more,
-- which is enough for a stream that each read shortens or ends; the loops of Geant4File/Grow
-- take as fuel the number of blocks that are left, for the inner loop with those of the
-- cluster, and one more, which is enough since each round moves a block, goes on in the cluster
-- or is the last one.
--
-- Parameters. ROOT's files, trees, matrices and vectors, the lines of the database's files and
-- the streams that read a value or the optics file, the analyzer's OpenFile, LoadDB and
-- THaRunBase, the slot arrays of the analyzer and its maps, its constant MAXSLOT, ROOT's
-- particle masses, vectors and linear equations, the operations of double and the random
-- numbers of ROOT are parameters; a generator of random numbers is a function of its state.
--
-- Not modelled: DefineVariables of TSBSSimDecoder, which registers names with the analyzer, its
-- LoadEvent, which stops a benchmark behind DoLoadEvent, and the state that DoLoadEvent leaves
-- where it returns an error. Not modelled, as it is not the program's own logic: printing, the
-- tree reader that ROOT generates, and the former programs in src/oldSolRelated, which are not
-- built.
pub mod Base
pub mod Database
pub mod Readout
pub mod Double
pub mod DigitizedPlane
pub mod SimAuxi
pub mod SimEvent
pub mod Decoder
pub mod SimFile
pub mod Box
pub mod GemPlane
pub mod Chamber
pub mod Digitization
pub mod Geant4File
pub mod HitData
pub mod Examples
